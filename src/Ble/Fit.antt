-- ===== src/Ble/Fit.antt =====
-- The size of what the display is sent, and the points of its history.
use burnrate.Prelude.{
  ℕ, zero, suc, ◌≤◌, ◌<◌, ◌≡◌, ◌⊎◌, inl, inr, refl, ap, Bool, Option, List, [], ◌∷◌, arith,
}
use burnrate.Prelude.Tests.{ltb, ltb→lt, Bool-cases, either}
use burnrate.Prelude.Lists.{length}
use burnrate.Ble.Payload.{
  BleTicket, BlePayload, ShownTask, Reading, Bridge, payload_max, with_tickets, fit, fitted, filled,
  with_hist, drop_last, base_payload, push_payload, fetch_usage_history, tickets_of,
}

-- `xs` is a beginning of `ys`.
pub data Prefix : List BleTicket → List BleTicket → Type 0 where
  none_of : (ys : List BleTicket) → Prefix [] ys
  more : (x : BleTicket) (xs ys : List BleTicket) → Prefix xs ys → Prefix (x ∷ xs) (x ∷ ys)

Prefix_refl : (xs : List BleTicket) → Prefix xs xs
Prefix_refl [] = Prefix.none_of []
Prefix_refl (x ∷ xs) = Prefix.more x xs xs (Prefix_refl xs)

drop_last-Prefix : (xs : List BleTicket) → Prefix (drop_last xs) xs
drop_last-Prefix [] = Prefix.none_of []
drop_last-Prefix (x ∷ []) = Prefix.none_of (x ∷ [])
drop_last-Prefix (x ∷ y ∷ ys) = Prefix.more x _ _ (drop_last-Prefix (y ∷ ys))

Prefix-trans : (xs ys zs : List BleTicket) → Prefix xs ys → Prefix ys zs → Prefix xs zs
Prefix-trans xs ys zs (Prefix.none_of _) q = Prefix.none_of zs
Prefix-trans _ _ _ (Prefix.more x xs ys h) (Prefix.more _ _ zs k) =
    Prefix.more x xs zs (Prefix-trans xs ys zs h k)

Prefix-length : (xs ys : List BleTicket) → Prefix xs ys → length xs ≤ length ys
Prefix-length xs ys (Prefix.none_of _) = omega arith
Prefix-length xs ys (Prefix.more x xs' ys' h) = omega (arith, Prefix-length xs' ys' h)

Prefix-nil : (xs : List BleTicket) → Prefix xs [] → xs ≡ []
Prefix-nil [] h = refl
Prefix-nil (x ∷ xs) h = absurd (omega (arith, Prefix-length (x ∷ xs) [] h))

-- A beginning of a list is all of it, or one of what is left without its last element.
Prefix-drop_last : (xs ys : List BleTicket) → Prefix xs ys → (xs ≡ ys) ⊎ Prefix xs (drop_last ys)
Prefix-drop_last xs ys (Prefix.none_of _) = inr (Prefix.none_of (drop_last ys))
Prefix-drop_last xs ys (Prefix.more x xs' [] h) =
    inl (ap (λ (l : List BleTicket). x ∷ l) (Prefix-nil xs' h))
Prefix-drop_last xs ys (Prefix.more x xs' (y ∷ ys') h) = elim (Prefix-drop_last xs' (y ∷ ys') h) [
  | inl e ↦ inl (ap (λ (l : List BleTicket). x ∷ l) e)
  | inr q ↦ inr (Prefix.more x xs' (drop_last (y ∷ ys')) q)
]

length-drop_last : (xs : List BleTicket) (n : ℕ) → length xs ≤ suc n → length (drop_last xs) ≤ n
length-drop_last [] n h = omega arith
length-drop_last (x ∷ []) n h = omega arith
length-drop_last (x ∷ y ∷ ys) zero h = absurd (omega arith)
length-drop_last (x ∷ y ∷ ys) (suc n) h = omega (arith, length-drop_last (y ∷ ys) n)

module _ (size : BlePayload → ℕ) (p : BlePayload) where
  abbrev pub Fits : List BleTicket → Type 0
  Fits ts = size (with_tickets size p ts) ≤ payload_max

  -- `ts` is the longest beginning of `all` with which the payload fits, or empty where there is none.
  abbrev pub Longest : List BleTicket → List BleTicket → Type 0
  Longest all ts =
      Prefix ts all
      × (Fits ts ⊎ (ts ≡ []))
      × ((zs : List BleTicket)
          → Prefix zs all
          → length ts < length zs
          → payload_max < size (with_tickets size p zs))

  fit-Longest :
      (rounds : ℕ) (ts : List BleTicket) → length ts ≤ rounds → Longest ts (fit size rounds p ts)
  unfolding fit
  fit-Longest zero [] h =
      (Prefix.none_of [], inr refl, λ zs q l. absurd (omega (arith, Prefix-length zs [] q)))
  fit-Longest zero (t ∷ ts) h = absurd (omega arith)
  fit-Longest (suc rounds) ts h =
      elim (Bool-cases (ltb payload_max (size (with_tickets size p ts)))) [
        | inl over ↦
            let rest = fit-Longest rounds (drop_last ts) (length-drop_last ts rounds h) in
            rw over (
              Prefix-trans _ _ _ rest.0 (drop_last-Prefix ts),
              rest.1,
              λ zs q l. elim (Prefix-drop_last zs ts q) [
                | inl same ↦ rw same (ltb→lt payload_max (size (with_tickets size p ts)) over)
                | inr less ↦ rest.2 zs less l
              ],
            )
        | inr fits ↦ rw fits (
          Prefix_refl ts,
          inl (ground arith),
          λ zs q l. absurd (omega (arith, Prefix-length zs ts q)),
        )
      ]

abbrev bare : BlePayload → BlePayload
bare p = record p { hist = [] }

with_hist-fits :
    (size : BlePayload → ℕ) (p : BlePayload) (hs : List ℕ)
    → size (bare p) ≤ payload_max
    → size (with_hist size (bare p) hs) ≤ payload_max
with_hist-fits size p [] h = h
with_hist-fits size p (x ∷ hs) h =
    elim (Bool-cases (ltb payload_max (size (record p { hist = x ∷ hs })))) [
      | inl over ↦ rw over h
      | inr fits ↦ rw fits (ground arith)
    ]

with_hist-tickets :
    (size : BlePayload → ℕ) (p : BlePayload) (hs : List ℕ)
    → (with_hist size p hs).tickets ≡ p.tickets
with_hist-tickets size p [] = refl
with_hist-tickets size p (x ∷ hs) =
    either (λ (q : BlePayload). q.tickets ≡ p.tickets) _ _ _ refl refl

-- With history the payload still fits, if it fitted.
filled-fits :
    (size : BlePayload → ℕ) (snaps : Option (List ℕ)) (p : BlePayload)
    → size (bare p) ≤ payload_max
    → size (filled size snaps (bare p)) ≤ payload_max
filled-fits size snaps p h =
    either (λ (q : BlePayload). size q ≤ payload_max) (ltb (size (bare p)) 350) _ _
      (with_hist-fits size p (fetch_usage_history snaps) h) h

filled-tickets :
    (size : BlePayload → ℕ) (snaps : Option (List ℕ)) (p : BlePayload)
    → (filled size snaps p).tickets ≡ p.tickets
filled-tickets size snaps p =
    either (λ (q : BlePayload). q.tickets ≡ p.tickets) (ltb (size p) 350) _ _
      (with_hist-tickets size p (fetch_usage_history snaps)) refl

-- The display is sent the longest beginning of the tickets with which the payload takes at most 500
-- bytes, and no ticket if there is none; and unless it has no ticket, what is written, with the
-- history that is added last, takes at most 500 bytes.
pub push_payload-Longest :
    (size : BlePayload → ℕ) (b : Bridge) (tasks : List ShownTask) (snap : Option Reading) (req : ℕ)
    (snaps : Option (List ℕ)) (writes : BlePayload → Bool)
    → Longest size
        (base_payload b tasks snap req)
        (tickets_of tasks)
        (push_payload size b tasks snap req snaps writes).1.tickets
      × (((push_payload size b tasks snap req snaps writes).1.tickets ≡ [])
          ⊎ (size (push_payload size b tasks snap req snaps writes).1 ≤ payload_max))
unfolding push_payload base_payload
push_payload-Longest size b tasks snap req snaps writes =
    let base = base_payload b tasks snap req in
    let p = fitted size base in
    let best = fit-Longest size base (length base.tickets) base.tickets (omega arith) in
    rw (filled-tickets size snaps p)
      (best, elim best.1 [ inl fits ↦ inr (filled-fits size snaps p fits) | inr empty ↦ inl empty ])
