-- ===== src/Retention/Window.antt =====
-- What a sweep deletes is old enough and inside the captures' directory.
use burnrate.Prelude.{
  ℕ, ◌+◌, ◌*◌, ◌≤◌, ◌<◌, ◌≡◌, refl, inl, inr, Bool, true, false, Option, none, some, List, [], ◌∷◌,
  arith,
}
use mathlib.Core.Path.{subst}
use burnrate.Prelude.Tests.{either, Bool-cases}
use burnrate.Prelude.Lists.{All}
use burnrate.Prelude.Int.{pos, pos_part, leb_ℤ}
use burnrate.Prelude.Text.{Text, no_text, trim_space}
use burnrate.Prelude.Wrap.{wrap_int64}
use burnrate.Scheduling.Types.{Time}
use burnrate.Retention.{
  Capture, Files, Stat, retention_days, within, resolved, within_root, of_created, escapes,
  within_root, day, back, is_before, of_age, of_path, by_stat, prune, with_deleted, sweep_each,
  sweep_once,
}

-- A path that leads to a file below the root, as `filepath.Rel` sees it.
abbrev pub Inside : Files → Text → Text → Type 0
Inside f root abs = (rel : Text) × (f.rel root abs ≡ some rel) × (escapes rel ≡ false)

-- A capture was taken more than so many days before.
abbrev pub Old : Time → ℕ → Capture → Type 0
Old now days c = (created : Time) × (c.created_at ≡ some created) × (created + days * day < now)

-- What is said of a deleted file and its capture.
abbrev pub Justified : Files → Text → Time → ℕ → Capture × Text → Type 0
Justified f root now days (c, abs) = Inside f root abs × Old now days c

-- For up to 106751 days the product in `back` does not wrap around.
back-exact :
    (created now days : ℕ)
    → days ≤ 106751
    → is_before created now (back days) ≡ true
    → created + days * day < now
unfolding is_before back wrap_int64
back-exact created now days h k = ground arith

module _ (f : Files) (root : Text) where
  within-Inside :
      (abs out : Text) (o : Option Text)
      → f.rel root abs ≡ o
      → within abs o ≡ some out
      → Inside f root out
  within-Inside abs out none h k = cc
  within-Inside abs out (some rel) h k = elim (Bool-cases (escapes rel)) [
    | inl e ↦ cc
    | inr e ↦ subst (Inside f root) (same abs out rel e k) (rel, h, e)
  ]
    where
      same :
          (abs out rel : Text) → escapes rel ≡ false → within abs (some rel) ≡ some out → abs ≡ out
      same abs out rel e k = ground (arith, e, k)

  within_root-Inside : (path out : Text) → within_root f root path ≡ some out → Inside f root out
  unfolding within_root
  within_root-Inside path out h = elim (Bool-cases (no_text (trim_space path))) [
    | inl e ↦ cc
    | inr e ↦ resolved-Inside (f.abs path) out (ground (arith, e, h))
  ]
    where
      resolved-Inside :
          (o : Option Text) (out : Text) → resolved f root o ≡ some out → Inside f root out
      resolved-Inside none out h = cc
      resolved-Inside (some abs) out h = within-Inside abs out (f.rel root abs) refl h

  module _ (now days : ℕ) (bound : days ≤ 106751) where
    -- The file that is deleted for a capture, if any, is inside the root, and the capture old.
    abbrev Safe : Capture → Option Text → Type 0
    Safe c none = Unit
    Safe c (some abs) = Inside f root abs × Old now days c

    by_stat-Safe :
        (c : Capture) (abs : Text) (st : Stat)
        → Inside f root abs
        → Old now days c
        → Safe c (by_stat f c abs st).1
    by_stat-Safe c abs Stat.regular h k =
        either (λ (x : Capture × Option Text). Safe c x.1) (f.removes abs) _ (c, none) (h, k) tt
    by_stat-Safe c abs Stat.missing h k = tt
    by_stat-Safe c abs Stat.failed h k = tt
    by_stat-Safe c abs Stat.irregular h k = tt

    of_path-Safe :
        (c : Capture) (o : Option Text)
        → within_root f root c.video_path ≡ o
        → Old now days c
        → Safe c (of_path f c o).1
    of_path-Safe c none h k = tt
    of_path-Safe c (some abs) h k =
        by_stat-Safe c abs (f.stat abs) (within_root-Inside c.video_path abs h) k

    of_age-Safe :
        (c : Capture) (b : Bool) → (b ≡ true → Old now days c) → Safe c (of_age f root c b).1
    of_age-Safe c true h = of_path-Safe c _ refl (h refl)
    of_age-Safe c false h = tt

    of_created-Safe :
        (c : Capture) (o : Option Time)
        → c.created_at ≡ o
        → Safe c (of_created f root now (back days) c o).1
    of_created-Safe c none h = tt
    of_created-Safe c (some created) h =
        of_age-Safe c _ (λ k. (created, h, back-exact created now days bound k))

    prune-Safe : (c : Capture) → Safe c (prune f root now (back days) c).1
    unfolding prune
    prune-Safe c =
        either (λ (x : Capture × Option Text). Safe c x.1) (no_text c.video_path) (c, none) _ tt
          (of_created-Safe c c.created_at refl)

    with_deleted-All :
        (c : Capture) (o : Option Text) (rest : List (Capture × Text))
        → Safe c o
        → All (Justified f root now days) rest
        → All (Justified f root now days) (with_deleted c o rest)
    with_deleted-All c none rest h k = k
    with_deleted-All c (some abs) rest h k = (h, k)

    sweep_each-Justified :
        (cs : List Capture)
        → All (Justified f root now days) (sweep_each f root now (back days) cs).1
    unfolding sweep_each
    sweep_each-Justified [] = tt
    sweep_each-Justified (c ∷ cs) =
        either (λ (x : List Capture × List (Capture × Text)). All (Justified f root now days) x.1)
          (f.is_done c.id) (c ∷ cs, []) _ tt
          (with_deleted-All c (prune f root now (back days) c).1
            (sweep_each f root now (back days) cs).1 (prune-Safe c) (sweep_each-Justified cs))

  -- For a window of at most 106751 days, each file that a sweep deletes lies inside the captures'
  -- directory, as `filepath.Rel` sees it, and belongs to a capture that was taken more than so many
  -- days before.
  pub sweep_once-Justified :
      (now : Time) (setting : Option Text) (cs : List Capture)
      → pos_part (retention_days setting) ≤ 106751
      → All
          (Justified f root now (pos_part (retention_days setting)))
          (sweep_once f root now setting cs).1
  unfolding sweep_once
  sweep_once-Justified now setting cs bound =
      either
        (λ (x : List Capture × List (Capture × Text)).
          All (Justified f root now (pos_part (retention_days setting))) x.1)
        (leb_ℤ (retention_days setting) (pos 0)) (cs, []) _ tt
        (sweep_each-Justified now (pos_part (retention_days setting)) bound cs)
