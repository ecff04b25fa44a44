-- ===== src/Usage/Sources.antt =====
-- Where `BundleForAccount` finds a token.
use burnrate.Prelude.{◌≡◌, ◌⊎◌, inl, inr, refl, false, Option, none, some, List, [], ◌∷◌}
use mathlib.Core.Path.{subst}
use burnrate.Prelude.Tests.{Bool-cases, either, either_option_eq}
use burnrate.Prelude.Text.{Text, no_text}
use burnrate.Usage.Renewed.{Stored}
use burnrate.Usage.Names.{default_service}
use burnrate.Usage.Keychain.{
  Machine, TokenBundle, Source, Session, usable, or_else, placed, keychain_bundle,
  credentials_file_bundle_from, sandbox_keychain_bundle, first_usable, default_keychain_bundle,
  own_bundle, default_bundle, bundle_for_account, own_keychain, item_of, remembered, dumped,
  with_password, from_home, trimmed, parsed, read_back,
}

module _ (m : Machine) where
  -- A place that can be written to, which holds the bundle's token.
  abbrev pub Located : m.State → TokenBundle → Type 0
  Located s b =
      ((b.source ≡ Source.keychain) ⊎ (b.source ≡ Source.file)) × Stored m s b b.access_token

  -- A token, and the place that it is written back to.
  abbrev pub Writable : m.State → Option TokenBundle → Type 0
  Writable s none = Unit
  Writable s (some b) = (no_text b.access_token ≡ false) × Located s b

  -- The place that it came from, if it was found.
  abbrev Placed : m.State → Option TokenBundle → Type 0
  Placed s none = Unit
  Placed s (some b) = Located s b

  Placed-keychain :
      (s : m.State) (item path pw : Text) (o : Option TokenBundle)
      → parsed m (trimmed m (m.find_password s item path)) ≡ o
      → Placed s (placed Source.keychain item path pw o)
  unfolding read_back
  Placed-keychain s item path pw none e = tt
  Placed-keychain s item path pw (some b) e = (inl refl, (b, e, refl))

  Placed-file :
      (s : m.State) (path : Text) (o : Option TokenBundle)
      → parsed m (m.read_file s path) ≡ o
      → Placed s (placed Source.file path [] [] o)
  unfolding read_back
  Placed-file s path none e = tt
  Placed-file s path (some b) e = (inr refl, (b, e, refl))

  Writable-usable : (s : m.State) (o : Option TokenBundle) → Placed s o → Writable s (usable o)
  Writable-usable s none h = tt
  Writable-usable s (some b) h = elim (Bool-cases (no_text b.access_token)) [
    | inl blank ↦ rw blank tt
    | inr set ↦ rw set (set, h)
  ]

  Writable-usable_self :
      (s : m.State) (o : Option TokenBundle) → Writable s o → Writable s (usable o)
  Writable-usable_self s none h = tt
  Writable-usable_self s (some b) h = rw (h.0) h

  Writable-or_else :
      (s : m.State) (o c : Option TokenBundle)
      → Writable s o
      → Writable s c
      → Writable s (or_else o c)
  Writable-or_else s none c h k = k
  Writable-or_else s (some b) c h k = h

  abbrev PlacedAnswer : m.State × Option TokenBundle → Type 0
  PlacedAnswer (s, o) = Placed s o

  abbrev Found : m.State × Option TokenBundle → Type 0
  Found (s, o) = Writable s o

  -- A lookup, by the state that it leaves.
  abbrev pub Answered : Session m.State × Option TokenBundle → Type 0
  Answered (s, o) = Writable s.machine o

  with_password-Placed :
      (s : m.State) (item path : Text) (pw : Option Text)
      → Placed s (with_password m s item path pw)
  with_password-Placed s item path none = tt
  with_password-Placed s item path (some pw) = Placed-keychain s item path pw _ refl

  keychain_bundle-Placed :
      (s : m.State) (service path : Text) → Placed s (keychain_bundle m s service path)
  unfolding keychain_bundle
  keychain_bundle-Placed s service path = Placed-keychain s service path [] _ refl

  sandbox_keychain_bundle-Placed :
      (s : m.State) (item path pw_file : Text)
      → PlacedAnswer (sandbox_keychain_bundle m s item path pw_file)
  unfolding sandbox_keychain_bundle
  sandbox_keychain_bundle-Placed s item path pw_file = with_password-Placed _ item path _

  file-Placed : (s : m.State) (dir : Text) → Placed s (credentials_file_bundle_from m s dir)
  unfolding credentials_file_bundle_from
  file-Placed s dir = Placed-file s _ _ refl

  from_home-Placed : (s : m.State) (home : Option Text) → Placed s (from_home m s home)
  from_home-Placed s none = tt
  from_home-Placed s (some home) = file-Placed s _

  own_keychain-Placed :
      (s : m.State) (item path pw_file : Text) → PlacedAnswer (own_keychain m s item path pw_file)
  own_keychain-Placed s item path pw_file =
      either PlacedAnswer (no_text path) _ _ (keychain_bundle-Placed s item [])
        (sandbox_keychain_bundle-Placed s item path pw_file)

  own_bundle-Writable :
      (s : m.State) (dir path pw_file : Text) → Found (own_bundle m s dir path pw_file)
  unfolding own_bundle
  own_bundle-Writable s dir path pw_file =
      either Found (no_text dir) (s, none) _ tt
        (Writable-or_else _ _ _
          (Writable-usable _ _ (own_keychain-Placed s (item_of m dir) path pw_file))
          (Writable-usable _ _ (file-Placed _ dir)))

  first_usable-Writable : (s : m.State) (names : List Text) → Answered (first_usable m s names)
  unfolding first_usable
  first_usable-Writable s [] = tt
  first_usable-Writable s (name ∷ names) =
      either_option_eq Answered (usable (keychain_bundle m s name [])) _ _
        (first_usable-Writable s names)
        λ b e.
          subst (Writable s) e
            (Writable-usable s (keychain_bundle m s name []) (keychain_bundle-Placed s name []))

  remembered-Writable : (s : m.State) (name : Text) → Writable s (remembered m s name)
  remembered-Writable s name =
      either (Writable s) (no_text name) none _ tt
        (Writable-usable s (keychain_bundle m s name []) (keychain_bundle-Placed s name []))

  default_keychain_bundle-Writable : (s : Session m.State) → Answered (default_keychain_bundle m s)
  unfolding default_keychain_bundle
  default_keychain_bundle-Writable s =
      either_option_eq Answered (remembered m s.machine s.discovered) _ _
        (first_usable-Writable s.machine (default_service ∷ dumped m (m.dump_keychain s.machine)))
        λ b e. subst (Writable s.machine) e (remembered-Writable s.machine s.discovered)

  default_bundle-Writable : (s : Session m.State) → Answered (default_bundle m s)
  unfolding default_bundle
  default_bundle-Writable s =
      Writable-or_else _ _ _ (Writable-usable_self _ _ (default_keychain_bundle-Writable s))
        (Writable-usable _ _ (from_home-Placed _ m.home))

  -- A bundle that is found for an account has a token, and names the keychain or the file that a renewed
  -- one is written back to: what is read there, in the state that the lookup leaves, is that token.
  pub bundle_for_account-Writable :
      (s : Session m.State) (dir path pw_file : Text)
      → Answered (bundle_for_account m s dir path pw_file)
  unfolding bundle_for_account
  bundle_for_account-Writable s dir path pw_file =
      either_option_eq Answered (own_bundle m s.machine dir path pw_file).1 _ _
        (default_bundle-Writable _)
        λ b e.
          subst (Writable (own_bundle m s.machine dir path pw_file).0) e
            (own_bundle-Writable s.machine dir path pw_file)
