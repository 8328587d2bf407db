-- ===== src/Library/Overlap.antt =====
-- Writers of the library of src/io.rs that overlap. A publication of src/main.rs, and a reload of one
-- file, loads the library, makes a changed copy and stores the copy; between its load and its store
-- other writers take their turns.
use gostly_ai_proxy.Base.{
  ℕ, zero, suc, Bool, true, false, ◌&&◌, Option, some, List, [], ◌∷◌, map, ◌≡◌, ◌≢◌, refl, sym, ◌∙◌,
  ap, ◌⊎◌, inl, inr, Text, text_eq, triple_eq, ◌==◌, if◌then◌else◌, All, Option-cases, Bool-cases,
  eq_iff, arith,
}
use mathlib.Core.Bool.{and-eq-true_iff}
use gostly_ai_proxy.Types.{MockEntry}
use gostly_ai_proxy.Library.{Key, MockLibrary, key_of, publish, find_exact}
use gostly_ai_proxy.Library.Owned.{IsOwned, publish-IsOwned}
use gostly_ai_proxy.Library.Lookup.{find_exact-publish}
use gostly_ai_proxy.Library.Reload.{Serde, Dir, segment_name, reload_one_file}
use gostly_ai_proxy.Library.Reload.Isolated.{reload_one_file-IsOwned, reload_one_file_elsewhere}

-- What a writer does to the copy: the directory is what the reload reads of it.
pub data Edit : Type 0 where
  publication : Text → MockEntry → Edit
  file_reload : Dir → Text → Edit

-- A writer before its load, between its load and its store, and after its store.
pub data Writer : Type 0 where
  ready : Edit → Writer
  loaded : Edit → MockLibrary → Writer
  stored : Writer

module _ (serde : Serde) where
  unfoldable pub apply : Edit → MockLibrary → MockLibrary
  unfolding publish reload_one_file
  apply (publication svc_id entry) lib = publish svc_id entry lib
  apply (file_reload files fname) lib = reload_one_file serde files fname lib

  -- The writer of that index takes its next step.
  unfoldable pub turn : ℕ → MockLibrary → List Writer → MockLibrary × List Writer
  unfolding apply
  turn i lib [] = (lib, [])
  turn zero lib (ready w ∷ ws) = (lib, loaded w lib ∷ ws)
  turn zero lib (loaded w snapshot ∷ ws) = (apply w snapshot, stored ∷ ws)
  turn zero lib (stored ∷ ws) = (lib, stored ∷ ws)
  turn (suc i) lib (w ∷ ws) = let (lib', ws') = turn i lib ws in (lib', w ∷ ws')

  unfoldable pub turns : List ℕ → MockLibrary → List Writer → MockLibrary × List Writer
  unfolding turn
  turns [] lib ws = (lib, ws)
  turns (i ∷ schedule) lib ws = let (lib', ws') = turn i lib ws in turns schedule lib' ws'

-- The edits that can have put an entry where a lookup finds it: the publication of that entry under
-- what was asked for, and a reload of the service's file.
abbrev pub Wrote : Text → Key → MockEntry → Edit → Type 0
Wrote svc key e (publication svc_id entry) = (svc_id ≡ svc) × (key_of entry ≡ key) × (entry ≡ e)
Wrote svc key e (file_reload files fname) = segment_name fname ≡ some svc

abbrev pub SomeWrote : Text → Key → MockEntry → List Edit → Type 0
SomeWrote svc key e [] = ⊥
SomeWrote svc key e (w ∷ ws) = Wrote svc key e w ⊎ SomeWrote svc key e ws

-- What every writer keeps of the library, whatever the order of the turns, holds after them.
module _ (serde : Serde) (P : MockLibrary → Type 0) (Q : Edit → Type 0)
    (keeps : (w : Edit) (lib : MockLibrary) → Q w → P lib → P (apply serde w lib)) where
  abbrev pub Good : Writer → Type 0
  Good (ready w) = Q w
  Good (loaded w snapshot) = Q w × P snapshot
  Good stored = Unit

  turn-Good :
      (i : ℕ) (lib : MockLibrary) (ws : List Writer)
      → P lib
      → All Good ws
      → P (turn serde i lib ws).0 × All Good (turn serde i lib ws).1
  unfolding turn
  turn-Good i lib [] h g = (h, tt)
  turn-Good zero lib (ready w ∷ ws) h (q, g) = (h, ((q, h), g))
  turn-Good zero lib (loaded w snapshot ∷ ws) h ((q, s), g) = (keeps w snapshot q s, (tt, g))
  turn-Good zero lib (stored ∷ ws) h (_, g) = (h, (tt, g))
  turn-Good (suc i) lib (w ∷ ws) h (q, g) = let (h', g') = turn-Good i lib ws h g in (h', (q, g'))

  pub turns-Good :
      (schedule : List ℕ) (lib : MockLibrary) (ws : List Writer)
      → P lib
      → All Good ws
      → P (turns serde schedule lib ws).0
  unfolding turns
  turns-Good [] lib ws h g = h
  turns-Good (i ∷ schedule) lib ws h g =
      let (h', g') = turn-Good i lib ws h g in turns-Good schedule _ _ h' g'

named_cases : (fname svc : Text) → (segment_name fname ≡ some svc) ⊎ (segment_name fname ≢ some svc)
named_cases fname svc = elim (Option-cases (segment_name fname)) [
  | inl unnamed ↦ inr (λ named. cc)
  | inr (name, named) ↦ elim (Bool-cases (name == svc)) [
    | inl same ↦ inl (named ∙ ap some ((eq_iff name svc).0 same))
    | inr other ↦ inr (λ e. grind (arith, eq_iff name svc))
  ]
]

module _ (serde : Serde) (svc method uri tenant : Text) (Answer : MockEntry → Type 0) where
  abbrev Answers : MockLibrary → Type 0
  Answers lib =
      IsOwned lib × ((e : MockEntry) → find_exact lib svc method uri tenant ≡ some e → Answer e)

  abbrev Admits : Edit → Type 0
  Admits w = (e : MockEntry) → Wrote svc (method, uri, tenant) e w → Answer e

  from_test :
      (b : Bool) (entry e : MockEntry) (o : Option MockEntry)
      → (if b then some entry else o) ≡ some e
      → ((b ≡ true) × (entry ≡ e)) ⊎ (o ≡ some e)
  from_test true entry e o h = inl (refl, cc)
  from_test false entry e o h = inr h

  publish-Answers :
      (svc_id : Text) (entry : MockEntry) (lib : MockLibrary)
      → Admits (publication svc_id entry)
      → Answers lib
      → Answers (publish svc_id entry lib)
  publish-Answers svc_id entry lib admits (owned, h) = (
    publish-IsOwned svc_id entry lib owned,
    λ e found.
        let asked = svc_id == svc && key_of entry == (method, uri, tenant) in
        let test =
          from_test asked entry e (find_exact lib svc method uri tenant)
            (sym (find_exact-publish svc_id entry lib svc method uri tenant owned) ∙ found) in
        elim test [
          | inl (p, q) ↦
              let (s, k) = (and-eq-true_iff (svc_id == svc) _).0 p in
              admits e ((eq_iff svc_id svc).0 s, (eq_iff (key_of entry) _).0 k, q)
          | inr before ↦ h e before
        ],
  )

  reload-Answers :
      (files : Dir) (fname : Text) (lib : MockLibrary)
      → Admits (file_reload files fname)
      → Answers lib
      → Answers (reload_one_file serde files fname lib)
  reload-Answers files fname lib admits (owned, h) = (
    reload_one_file-IsOwned serde files fname lib owned,
    λ e found. elim (named_cases fname svc) [
      | inl named ↦ admits e named
      | inr other ↦ h e (
          sym (reload_one_file_elsewhere serde files fname lib svc method uri tenant owned other)
          ∙ found)
    ],
  )

  apply-Answers :
      (w : Edit) (lib : MockLibrary) → Admits w → Answers lib → Answers (apply serde w lib)
  unfolding apply
  apply-Answers (publication svc_id entry) lib = publish-Answers svc_id entry lib
  apply-Answers (file_reload files fname) lib = reload-Answers files fname lib

module _ (serde : Serde) (svc method uri tenant : Text) where
  abbrev Known : MockLibrary → List Edit → MockEntry → Type 0
  Known lib ws e =
      (find_exact lib svc method uri tenant ≡ some e) ⊎ SomeWrote svc (method, uri, tenant) e ws

  -- The writers that are ready admit the answers that are theirs.
  ready-Good :
      (P : MockLibrary → Type 0) (Answer : MockEntry → Type 0)
      (keeps : (w : Edit) (lib : MockLibrary)
        → Admits serde svc method uri tenant Answer w
        → P lib
        → P (apply serde w lib))
      (ws : List Edit)
      → ((e : MockEntry) → SomeWrote svc (method, uri, tenant) e ws → Answer e)
      → All (Good serde P (Admits serde svc method uri tenant Answer) keeps) (map ready ws)
  ready-Good P Answer keeps [] answers = tt
  ready-Good P Answer keeps (w ∷ ws) answers = (
    λ e wrote. answers e (inl wrote),
    ready-Good P Answer keeps ws (λ e wrote. answers e (inr wrote)),
  )

  -- From a library whose segments hold their own services alone, with every entry under its own
  -- key, publications and reloads of single files start and take their loads and stores in any
  -- order. An entry that a lookup then finds was found before, or one of the publications wrote
  -- that very entry under the service, method, URI and tenant asked for, or one of the reloads was
  -- of the file of that service.
  pub find_exact-turns :
      (lib : MockLibrary) (ws : List Edit) (schedule : List ℕ) (e : MockEntry)
      → IsOwned lib
      → find_exact (turns serde schedule lib (map ready ws)).0 svc method uri tenant ≡ some e
      → (find_exact lib svc method uri tenant ≡ some e) ⊎ SomeWrote svc (method, uri, tenant) e ws
  find_exact-turns lib ws schedule e owned found =
      let keeps = apply-Answers serde svc method uri tenant (Known lib ws) in
      (turns-Good serde (Answers serde svc method uri tenant (Known lib ws))
          (Admits serde svc method uri tenant (Known lib ws)) keeps schedule lib (map ready ws)
          (owned, λ e' found'. inl found')
          (ready-Good _ (Known lib ws) keeps ws (λ e' wrote. inr wrote))).1
        e found
