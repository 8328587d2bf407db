-- ===== src/ResourceStore/Disk/Log.antt =====
-- One resource that is put in memory and appended to the log of its service (src/resource_store.rs):
-- the log, replayed, is the bucket in memory still.
use gostly_ai_proxy.Base.{
  ◌≡◌, refl, sym, ap, ◌∙◌, Bool, true, none, some, List, [], ◌∷◌, ◌++◌, arith, Text, text_eq,
  pair_eq, ◌==◌, eq_iff, All, All-append, Bool-eq_of_iff, by_if, Bool-cases, Option-cases, inl, inr,
  IsClean, lines, unlines, lines-unlines, unlines-append_one, if◌then◌else◌,
}
use mathlib.Core.Option.{get_or}
use mathlib.Core.List.{append_cancel_right}
use gostly_ai_proxy.Base.HashMap
use gostly_ai_proxy.Base.HashMap.{HashMap, get-insert, All-insert, All-get}
use gostly_ai_proxy.Library.Reload.{Dir}
use gostly_ai_proxy.ResourceStore.{ResourceKey, ResourceState, ServiceResources, put_in}
use gostly_ai_proxy.ResourceStore.Disk.{
  ResourceSerde, IsStorable, ResourceLaws, is_blank, state_key, suffix, replay_lines, bucket_of,
  log_of, persist_jsonl,
}

abbrev pub Buckets : Type 0
Buckets = HashMap Text ServiceResources

-- The bucket of a service in memory, and the text of its log.
abbrev pub bucket : Buckets → Text → ServiceResources
bucket map svc = get_or (HashMap.get map svc) []

abbrev pub logged : Dir → Text → Text
logged files svc = get_or (HashMap.get files (log_of svc)) []

pub same_log : (svc svc' : Text) → (log_of svc == log_of svc') ≡ (svc == svc')
same_log svc svc' =
    Bool-eq_of_iff (log_of svc == log_of svc') (svc == svc')
      (λ same.
        (eq_iff svc svc').1
          (append_cancel_right svc svc' suffix ((eq_iff (log_of svc) (log_of svc')).0 same)))
      (λ same. (eq_iff (log_of svc) (log_of svc')).1 (ap log_of ((eq_iff svc svc').0 same)))

pub get_or-insert {ℓ} :
    {A : Type ℓ} (m : HashMap Text (List A)) (k j : Text) (v : List A)
    → get_or (HashMap.get (HashMap.insert m k v) j) []
      ≡ (if k == j then v else get_or (HashMap.get m j) [])
get_or-insert m k j v = ground (arith, get-insert m k j v, eq_iff k j)

module _ (serde : ResourceSerde) where
  -- Every log is made of lines, its replay is the bucket in memory, and each resource of the bucket
  -- stands under its own collection and id and is one that is read back as it is.
  pub record IsDurable (map : Buckets) (files : Dir) : Type 0 where
    pub lined : (svc : Text) → (ls : List Text) × All IsClean ls × (logged files svc ≡ unlines ls)
    pub replayed : (svc : Text) → bucket_of serde (logged files svc) ≡ bucket map svc
    pub keyed :
        (svc : Text)
        → All (λ (b : ResourceKey × ResourceState). b.0 ≡ state_key b.1) (bucket map svc)
    pub storable :
        (svc : Text) → All (λ (b : ResourceKey × ResourceState). IsStorable b.1) (bucket map svc)

module _ (serde : ResourceSerde) (laws : ResourceLaws serde) where
  replay_lines-append :
      (m : ServiceResources) (ls : List Text) (s : ResourceState) (l : Text)
      → IsStorable s
      → serde.print s ≡ some l
      → replay_lines serde m (ls ++ l ∷ [])
        ≡ HashMap.insert (replay_lines serde m ls) (state_key s) s
  unfolding replay_lines
  replay_lines-append m [] s l ok h =
      rw (laws.print_visible s l h, laws.parse-print s l ok h, replay_lines) refl
  replay_lines-append m (k ∷ ls) s l ok h = elim (Bool-cases (is_blank k)) [
    | inl blank ↦ rw (blank, replay_lines) (replay_lines-append m ls s l ok h)
    | inr visible ↦ elim (Option-cases (serde.parse k)) [
      | inl bad ↦ rw (visible, bad, replay_lines) (replay_lines-append m ls s l ok h)
      | inr (s', good) ↦
          rw (visible, good, replay_lines)
            (replay_lines-append (HashMap.insert m (state_key s') s') ls s l ok h)
    ]
  ]

  bucket_of-append :
      (ls : List Text) (s : ResourceState) (l : Text)
      → All IsClean ls
      → IsStorable s
      → serde.print s ≡ some l
      → bucket_of serde (unlines ls ++ l ++ 10 ∷ [])
        ≡ HashMap.insert (bucket_of serde (unlines ls)) (state_key s) s
  unfolding bucket_of
  bucket_of-append ls s l clean ok h =
      ap (λ (t : Text). replay_lines serde [] (lines t)) (sym (unlines-append_one ls l))
      ∙ ap (replay_lines serde []) (
          lines-unlines (ls ++ l ∷ [])
            (All-append IsClean ls (l ∷ []) clean (laws.print_clean s l h, tt)))
      ∙ replay_lines-append [] ls s l ok h
      ∙ ap (λ (ks : List Text). HashMap.insert (replay_lines serde [] ks) (state_key s) s)
          (sym (lines-unlines ls clean))

  logged-persist_jsonl :
      (svc : Text) (s : ResourceState) (l : Text) (files : Dir) (svc' : Text)
      → serde.print s ≡ some l
      → logged (persist_jsonl serde true svc s files) svc'
        ≡ (if svc == svc' then logged files svc ++ l ++ 10 ∷ [] else logged files svc')
  unfolding persist_jsonl
  logged-persist_jsonl svc s l files svc' printed =
      let longer : Text = logged files svc ++ l ++ 10 ∷ [] in
      let written : (elim (serde.print s) [
        | none ↦ logged files svc
        | some line ↦ logged files svc ++ line ++ 10 ∷ []
      ])
          ≡ longer =
        rw printed refl in
      ap (λ (t : Text). logged (HashMap.insert files (log_of svc) t) svc') written
      ∙ get_or-insert files (log_of svc) (log_of svc') longer
      ∙ ap (λ (b : Bool). if b then longer else logged files svc') (same_log svc svc')

  put_lined :
      (svc : Text) (s : ResourceState) (l : Text) (map : Buckets) (files : Dir) (svc' : Text)
      → serde.print s ≡ some l
      → IsDurable serde map files
      → (ls : List Text) × All IsClean ls
        × (logged (persist_jsonl serde true svc s files) svc' ≡ unlines ls)
  put_lined svc s l map files svc' printed durable =
      let longer : Text = logged files svc ++ l ++ 10 ∷ [] in
      let choice : Bool → Text = λ b. if b then longer else logged files svc' in
      let step = logged-persist_jsonl svc s l files svc' printed in
      elim (Bool-cases (svc == svc')) [
        | inl same ↦
            let (ls, clean, text) = durable.lined svc in
            (
              ls ++ l ∷ [],
              All-append IsClean ls (l ∷ []) clean (laws.print_clean s l printed, tt),
              step
                  ∙ ap choice same
                  ∙ ap (λ (t : Text). t ++ l ++ 10 ∷ []) text
                  ∙ sym (unlines-append_one ls l),
            )
        | inr other ↦
            let (ls, clean, text) = durable.lined svc' in (ls, clean, step ∙ ap choice other ∙ text)
      ]

  bucket-put_in :
      (map : Buckets) (svc : Text) (s : ResourceState) (svc' : Text)
      → bucket (put_in map svc (state_key s) s) svc'
        ≡ (if svc == svc' then HashMap.insert (bucket map svc) (state_key s) s else bucket map svc')
  bucket-put_in map svc s svc' =
      get_or-insert map svc svc' (HashMap.insert (bucket map svc) (state_key s) s)

  put_replayed :
      (svc : Text) (s : ResourceState) (l : Text) (map : Buckets) (files : Dir) (svc' : Text)
      → IsStorable s
      → serde.print s ≡ some l
      → IsDurable serde map files
      → bucket_of serde (logged (persist_jsonl serde true svc s files) svc')
        ≡ bucket (put_in map svc (state_key s) s) svc'
  put_replayed svc s l map files svc' ok printed durable =
      let longer : Text = logged files svc ++ l ++ 10 ∷ [] in
      let choice : Bool → Text = λ b. if b then longer else logged files svc' in
      let grown = HashMap.insert (bucket map svc) (state_key s) s in
      let added : Bool → ServiceResources = λ b. if b then grown else bucket map svc' in
      let file = ap (bucket_of serde) (logged-persist_jsonl svc s l files svc' printed) in
      let memory = bucket-put_in map svc s svc' in
      elim (Bool-cases (svc == svc')) [
        | inl same ↦
            let (ls, clean, text) = durable.lined svc in
            let before : ServiceResources → ServiceResources =
              λ m. HashMap.insert m (state_key s) s in
            file
            ∙ ap (λ (b : Bool). bucket_of serde (choice b)) same
            ∙ ap (λ (t : Text). bucket_of serde (t ++ l ++ 10 ∷ [])) text
            ∙ bucket_of-append ls s l clean ok printed
            ∙ ap (λ (t : Text). before (bucket_of serde t)) (sym text)
            ∙ ap before (durable.replayed svc)
            ∙ sym (memory ∙ ap added same)
        | inr other ↦
            file
            ∙ ap (λ (b : Bool). bucket_of serde (choice b)) other
            ∙ durable.replayed svc'
            ∙ sym (memory ∙ ap added other)
      ]

  put_All :
      (P : ResourceKey × ResourceState → Type 0) (svc : Text) (s : ResourceState) (map : Buckets)
      (svc' : Text)
      → P (state_key s, s)
      → ((x : Text) → All P (bucket map x))
      → All P (bucket (put_in map svc (state_key s) s) svc')
  put_All P svc s map svc' here h = rw (bucket-put_in map svc s svc') (
      by_if (All P) (svc == svc') _ (bucket map svc')
        (All-insert P (bucket map svc) (state_key s) s here (h svc)) (h svc'))

  -- A resource that is put in memory and whose line is appended.
  pub put-IsDurable :
      (svc : Text) (s : ResourceState) (map : Buckets) (files : Dir)
      → IsStorable s
      → IsDurable serde map files
      → IsDurable serde (put_in map svc (state_key s) s) (persist_jsonl serde true svc s files)
  put-IsDurable svc s map files ok durable =
      let (l, printed) = laws.prints s ok in
      record {
        lined = λ svc'. put_lined svc s l map files svc' printed durable;
        replayed = λ svc'. put_replayed svc s l map files svc' ok printed durable;
        keyed = λ svc'. put_All (λ b. b.0 ≡ state_key b.1) svc s map svc' refl durable.keyed;
        storable = λ svc'. put_All (λ b. IsStorable b.1) svc s map svc' ok durable.storable;
      }

  -- A store that starts with nothing.
  pub empty-IsDurable : IsDurable serde [] []
  unfolding HashMap.get unlines bucket_of replay_lines lines
  empty-IsDurable = record {
    lined = λ svc. ([], tt, refl);
    replayed = λ svc. refl;
    keyed = λ svc. tt;
    storable = λ svc. tt;
  }
