-- ===== src/Ble/Payload.antt =====
-- What the display is sent. A text is its bytes here; a size is that of the payload's JSON.
use burnrate.Prelude.{
  ℕ, zero, suc, ◌+◌, ◌-◌, ◌*◌, ◌/◌, Bool, true, not, ◌||◌, Option, none, some, List, [], ◌∷◌, map,
}
use burnrate.Prelude.Tests.{◌==◌, ltb, leb, if◌then◌else◌}
use burnrate.Prelude.Lists.{length, any, keep}
use burnrate.Prelude.Text.{Text, codes, no_text, text_eq}
use burnrate.Scheduling.Types.{percent}

pub record BleTicket : Type 0 where
  pub id : Text
  pub status : ℕ
  pub name : Text

-- `hist` holds tenths of a percent.
pub record BlePayload : Type 0 where
  pub pct : ℕ
  pub spend : ℕ
  pub limit : ℕ
  pub pending : ℕ
  pub running : ℕ
  pub resets : Text
  pub req : ℕ
  pub tickets : List BleTicket
  pub lat : Text
  pub lon : Text
  pub loc_name : Text
  pub hist : List ℕ

-- What the bridge reads of a task, with the addresses of its pull requests.
pub record ShownTask : Type 0 where
  pub display_id : Text
  pub status : Text
  pub title : Text
  pub pr_urls : List Text

-- And of a reading of the usage.
pub record Reading : Type 0 where
  pub five_hour_util : ℕ
  pub seven_day_util : ℕ
  pub five_hour_resets_at : Text

-- The bridge's location, and whether its name was sent.
pub record Bridge : Type 0 where
  pub lat : Text
  pub lon : Text
  pub loc_name : Text
  pub loc_sent : Bool

abbrev pub payload_max : ℕ
payload_max = 500

-- `excludedStatuses`
unfoldable pub is_excluded : Text → Bool
is_excluded status =
    text_eq status (codes "done")
    || text_eq status (codes "dismissed")
    || text_eq status (codes "failed")

-- `mapTicketStatus`
unfoldable pub map_ticket_status : ShownTask → ℕ
map_ticket_status t =
    if text_eq t.status (codes "pr_created")
    then (if any (λ url. not (no_text url)) t.pr_urls then 2 else 1)
    else 0

abbrev take {ℓ} : {A : Type ℓ} → ℕ → List A → List A
take zero xs = []
take (suc n) [] = []
take (suc n) (x ∷ xs) = x ∷ take n xs

abbrev ticket : ShownTask → BleTicket
ticket t = record {
  id = t.display_id;
  status = map_ticket_status t;
  name = if ltb 24 (length t.title) then take 24 t.title else t.title;
}

abbrev count : ℕ → List BleTicket → ℕ
count s ts = length (keep (λ (t : BleTicket). t.status == s) ts)

-- The loop over the tasks.
unfoldable pub tickets_of : List ShownTask → List BleTicket
unfolding is_excluded map_ticket_status
tickets_of ts = map ticket (keep (λ (t : ShownTask). not (is_excluded t.status)) ts)

-- `math.Round` of a utilization, in percent and in tenths of a percent
abbrev pub rounded : ℕ → ℕ
rounded u = (2 * u + percent) / (2 * percent)

abbrev pub tenths : ℕ → ℕ
tenths u = (20 * u + percent) / (2 * percent)

abbrev util : (Reading → ℕ) → Option Reading → ℕ
util f none = 0
util f (some r) = rounded (f r)

abbrev resets : Option Reading → Text
resets none = []
resets (some r) = r.five_hour_resets_at

-- The payload before it is made to fit.
unfoldable pub base_payload : Bridge → List ShownTask → Option Reading → ℕ → BlePayload
unfolding tickets_of
base_payload b tasks snap req =
    let tickets = tickets_of tasks in
    record {
      pct = util (λ r. r.five_hour_util) snap;
      spend = util (λ r. r.seven_day_util) snap;
      limit = 100;
      pending = count 1 tickets;
      running = count 0 tickets;
      resets = resets snap;
      req = req;
      tickets = tickets;
      lat = b.lat;
      lon = b.lon;
      loc_name = if b.loc_sent then [] else b.loc_name;
      hist = [];
    }

abbrev pub at {ℓ} : {A : Type ℓ} → ℕ → A → List A → A
at i d [] = d
at zero d (x ∷ xs) = x
at (suc i) d (x ∷ xs) = at i d xs

-- `int(math.Round(float64(i) * step))`: the quotient is never halfway between two numbers.
abbrev pub sample_index : ℕ → ℕ → ℕ
sample_index n i = (2 * (i * (n - 1)) + 11) / 22

abbrev twelve : List ℕ
twelve = 0 ∷ 1 ∷ 2 ∷ 3 ∷ 4 ∷ 5 ∷ 6 ∷ 7 ∷ 8 ∷ 9 ∷ 10 ∷ 11 ∷ []

-- `fetchUsageHistory`, of the utilizations that the API answers with, none for a failure.
unfoldable pub fetch_usage_history : Option (List ℕ) → List ℕ
fetch_usage_history none = []
fetch_usage_history (some snaps) =
    if leb (length snaps) 12
    then map tenths snaps
    else map (λ (i : ℕ). tenths (at (sample_index (length snaps) i) 0 snaps)) twelve

abbrev pub drop_last {ℓ} : {A : Type ℓ} → List A → List A
drop_last [] = []
drop_last (x ∷ []) = []
drop_last (x ∷ y ∷ ys) = x ∷ drop_last (y ∷ ys)

module _ (size : BlePayload → ℕ) where
  abbrev pub with_tickets : BlePayload → List BleTicket → BlePayload
  with_tickets p ts = record p { tickets = ts }

  -- The loop that drops the last ticket, on as many rounds as there are tickets.
  unfoldable pub fit : ℕ → BlePayload → List BleTicket → List BleTicket
  fit zero p ts = ts
  fit (suc rounds) p ts =
      let rest = fit rounds p (drop_last ts) in
      if ltb payload_max (size (with_tickets p ts)) then rest else ts

  abbrev pub fitted : BlePayload → BlePayload
  fitted p = with_tickets p (fit (length p.tickets) p p.tickets)

  abbrev pub with_hist : BlePayload → List ℕ → BlePayload
  with_hist p [] = p
  with_hist p (h ∷ hs) =
      let p' = record p { hist = h ∷ hs } in
      if ltb payload_max (size p') then record p { hist = [] } else p'

  abbrev pub filled : Option (List ℕ) → BlePayload → BlePayload
  filled snaps p = if ltb (size p) 350 then with_hist p (fetch_usage_history snaps) else p

  -- `pushPayload`: what is written, and the bridge after the write, if it succeeds.
  unfoldable pub push_payload :
      Bridge
      → List ShownTask
      → Option Reading
      → ℕ
      → Option (List ℕ)
      → (BlePayload → Bool)
      → Bridge × BlePayload
  unfolding base_payload fit fetch_usage_history
  push_payload b tasks snap req snaps writes =
      let p = filled snaps (fitted (base_payload b tasks snap req)) in
      (if writes p then record b { loc_sent = true } else b, p)
