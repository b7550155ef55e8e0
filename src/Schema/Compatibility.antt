-- ===== src/Schema/Compatibility.antt =====
-- internal/platform/schema/compat.go: when the registry's level counts as pinned.
use sagaflow.Base.{◌≡◌, ◌↔◌, refl, ◌∙◌, ap, List, [], ◌∷◌, map, inl, inr}
use sagaflow.Errors.{Result, ok, err, Result-cases, ok-injective}
use sagaflow.Io.{annotate}
use sagaflow.Schema.{
  Level, unset, none, backward, other_level, demand_backward, Registry, global_level,
  ensure_backward_compatibility,
}

abbrev pub last_or : Level → List Level → Level
last_or level [] = level
last_or level (l ∷ ls) = last_or l ls

-- Every URL answered, and what they answered.
abbrev pub Answers : List (Result Level) → List Level → Type 0
Answers results levels = results ≡ map ok levels

global_level-Answers :
    (level : Level) (levels : List Level)
    → global_level level (map ok levels) ≡ ok (last_or level levels)
unfolding global_level
global_level-Answers level [] = refl
global_level-Answers level (l ∷ ls) = global_level-Answers l ls

global_level_inversion :
    (level last : Level) (results : List (Result Level))
    → global_level level results ≡ ok last
    → (levels : List Level) × Answers results levels × (last_or level levels ≡ last)
unfolding global_level
global_level_inversion level last [] h = ([], refl, ok-injective h)
global_level_inversion level last (err e ∷ results) h = cc
global_level_inversion level last (ok l ∷ results) h =
    let (ls, e, k) = global_level_inversion l last results h in (l ∷ ls, ap (λ rs. ok l ∷ rs) e, k)

is_pinned : (l : Level) → demand_backward l ≡ ok tt → l ≡ backward
is_pinned backward h = refl
is_pinned unset h = cc
is_pinned none h = cc
is_pinned other_level h = cc

module _ {S : Type 0} (registry : Registry S) where
  open registry use {set_compatibility, compatibility}

  -- The level counts as pinned exactly if every URL accepted BACKWARD, and then every URL answered the
  -- read-back and the last to answer said BACKWARD.
  pub ensure_backward_compatibility_iff :
      (w : S)
      → let (sent, w') = set_compatibility backward w in
        ((ensure_backward_compatibility registry w).0 ≡ ok tt) ↔ (
          ((accepted : List Level) × Answers sent accepted)
          × ((levels : List Level) × Answers (compatibility w').0 levels
              × (last_or unset levels ≡ backward)))
  unfolding ensure_backward_compatibility annotate
  ensure_backward_compatibility_iff w = (forward, backwards)
    where
      sent : List (Result Level)
      sent = (set_compatibility backward w).0

      got : List (Result Level)
      got = (compatibility (set_compatibility backward w).1).0

      forward :
          (ensure_backward_compatibility registry w).0 ≡ ok tt
          → ((accepted : List Level) × Answers sent accepted)
            × ((levels : List Level) × Answers got levels × (last_or unset levels ≡ backward))
      forward h = elim (Result-cases (global_level unset sent)) [
        | inl (a, e) ↦ elim (Result-cases (global_level unset got)) [
          | inl (l, k) ↦
              let (levels, answers, reported) = global_level_inversion unset l got k in
              let (taken, sends, _) = global_level_inversion unset a sent e in
              let pinned : demand_backward l ≡ ok tt = rw (e, k) at h in
              ((taken, sends), (levels, answers, reported ∙ is_pinned l pinned))
          | inr (x, k) ↦ let no = rw (e, k) at h in cc
        ]
        | inr (x, e) ↦ let no = rw e at h in cc
      ]

      backwards :
          ((accepted : List Level) × Answers sent accepted)
            × ((levels : List Level) × Answers got levels × (last_or unset levels ≡ backward))
          → (ensure_backward_compatibility registry w).0 ≡ ok tt
      backwards ((taken, e), (ls, k, last)) =
          rw (e, global_level-Answers unset taken, k, global_level-Answers unset ls, last) refl
