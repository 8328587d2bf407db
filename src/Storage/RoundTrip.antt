-- ===== src/Storage/RoundTrip.antt =====
-- What a restart reads of the sequence file and of the mode file (src/io.rs).
use gostly_ai_proxy.Base.{
  ◌≡◌, refl, sym, ap, ◌∙◌, true, Option, some, List, [], ◌∷◌, ◌++◌, Text, text_eq, join, lines,
  unlines, IsClean, lines-unlines, join-unlines, All, trim,
}
use gostly_ai_proxy.Types.{Mode, learn, mock, passthrough, transitioning, MockSequence}
use gostly_ai_proxy.Storage.{
  SequenceSerde, SequenceLaws, parse_all, print_all, load_sequences, line_end, save_sequences,
  ModeSerde, read_mode_from_file, write_mode_to_file, or_env, initial_mode,
}

module _ (serde : SequenceSerde) (laws : SequenceLaws serde) where
  print_all_cons :
      (s : MockSequence) (seqs : List MockSequence) (l : Text)
      → serde.print s ≡ some l
      → print_all serde (s ∷ seqs) ≡ l ∷ print_all serde seqs
  unfolding print_all
  print_all_cons s seqs l h = rw (h, print_all) refl

  parse_all_cons :
      (s : MockSequence) (l : Text) (ls : List Text)
      → serde.parse l ≡ some s
      → parse_all serde (l ∷ ls) ≡ s ∷ parse_all serde ls
  unfolding parse_all
  parse_all_cons s l ls h = rw (h, parse_all) refl

  print_all-IsClean : (seqs : List MockSequence) → All IsClean (print_all serde seqs)
  print_all-IsClean [] = unfold print_all in tt
  print_all-IsClean (s ∷ seqs) =
      let (l, printed) = laws.prints s in
      rw (print_all_cons s seqs l printed) (laws.print_clean s l printed, print_all-IsClean seqs)

  parse_all-print_all : (seqs : List MockSequence) → parse_all serde (print_all serde seqs) ≡ seqs
  parse_all-print_all [] = unfold parse_all print_all in refl
  parse_all-print_all (s ∷ seqs) =
      let (l, printed) = laws.prints s in
      ap (parse_all serde) (print_all_cons s seqs l printed)
      ∙ parse_all_cons s l (print_all serde seqs) (laws.parse-print s l printed)
      ∙ ap (λ (r : List MockSequence). s ∷ r) (parse_all-print_all seqs)

  saved_lines :
      (seqs : List MockSequence)
      → join 10 (print_all serde seqs) ++ line_end seqs ≡ unlines (print_all serde seqs)
  saved_lines [] = unfold print_all join unlines in refl
  saved_lines (s ∷ seqs) =
      let (l, printed) = laws.prints s in
      let first = print_all_cons s seqs l printed in
      ap (λ (ls : List Text). join 10 ls ++ 10 ∷ []) first
      ∙ join-unlines l (print_all serde seqs)
      ∙ ap unlines (sym first)

  -- A restart has the sequences that were saved: where the write succeeded, loading the file gives
  -- them back, all of them and in their order, the empty list too.
  pub load_sequences-save_sequences :
      (file : Option Text) (seqs : List MockSequence)
      → load_sequences serde (save_sequences serde true file seqs) ≡ seqs
  unfolding load_sequences save_sequences
  load_sequences-save_sequences file seqs =
      ap (λ (t : Text). parse_all serde (lines t)) (saved_lines seqs)
      ∙ ap (parse_all serde) (lines-unlines (print_all serde seqs) (print_all-IsClean seqs))
      ∙ parse_all-print_all seqs

-- The mode that is durable: one that is written, or that of before.
abbrev pub durable : Mode → Mode → Mode
durable before transitioning = before
durable before m = m

-- A restart is in the last durable mode. After a mode was written with success, start-up has that
-- mode, whatever the environment asks for; but after the time of transition was to be written,
-- start-up has the mode that it had before.
initial_mode-write_mode_to_file :
    (serde : ModeSerde) (file : Option Text) (env : Text) (m : Mode)
    → initial_mode serde (write_mode_to_file true file m) env
      ≡ durable (initial_mode serde file env) m
unfolding initial_mode write_mode_to_file read_mode_from_file trim
initial_mode-write_mode_to_file serde file env learn = ap (or_env env) serde.parse_learn
initial_mode-write_mode_to_file serde file env mock = ap (or_env env) serde.parse_mock
initial_mode-write_mode_to_file serde file env passthrough = ap (or_env env) serde.parse_passthrough
initial_mode-write_mode_to_file serde file env transitioning = refl
