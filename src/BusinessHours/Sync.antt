-- ===== src/BusinessHours/Sync.antt =====
-- `apply` and `sync_all` of app/services/business_hours.py: the schedule opens and closes a store
-- when its answer changes, and leaves the vendor's own toggle alone in between.
use cheering_shop_backend.Prelude.{
  ℕ, ◌≡◌, refl, ap, ◌∙◌, Bool, true, false, Option, none, some, List, [], ◌∷◌, ◌++◌, not,
  if◌then◌else◌, count_of, map, All, Bool-cases, inl, inr,
}
use cheering_shop_backend.Enums.{RestaurantStatus, is_open}
use cheering_shop_backend.BusinessHours.{Hours, is_open_at}

-- The columns of a restaurant that the schedule reads and writes; no hours is null or an empty
-- object. `scheduled_open` is the schedule's last answer.
pub record Opening : Type 0 where
  pub id : ℕ
  pub business_hours : Option Hours
  pub status : RestaurantStatus
  pub scheduled_open : Option Bool

abbrev pub wanted : Bool → RestaurantStatus
wanted true = RestaurantStatus.opened
wanted false = RestaurantStatus.closed

abbrev pub same : Bool → Bool → Bool
same true b = b
same false b = not b

-- `scheduled == last`
abbrev pub is_last : Option Bool → Bool → Bool
is_last none b = false
is_last (some a) b = same a b

abbrev pub written : Bool → Opening → Opening
written scheduled r = record r { status = wanted scheduled; scheduled_open = some scheduled }

-- The row after the call, and whether its status changed.
abbrev pub applied : Bool → Opening → Opening × Bool
applied scheduled r =
    (written scheduled r, not (same (is_open r.status) (is_open (wanted scheduled))))

unfoldable pub apply : ℕ → Opening → Opening × Bool
unfolding is_open_at
apply at r = elim r.business_hours [
  | none ↦ (r, false)
  | some hours ↦ applied (is_open_at hours at) r
]

-- One pass over one row, and whether it was written.
abbrev pub is_due : ℕ → Opening → Option Hours → Bool
is_due at r none = false
is_due at r (some hours) = not (is_last r.scheduled_open (is_open_at hours at))

abbrev pub pass_row : ℕ → Opening → Option Hours → Opening
pass_row at r none = r
pass_row at r (some hours) =
    if is_last r.scheduled_open (is_open_at hours at) then r else written (is_open_at hours at) r

-- The rows after the worker's pass, and how many it changed. No call comes between its read and its
-- conditional writes here.
unfoldable pub sync_all : ℕ → List Opening → List Opening × ℕ
unfolding is_open_at
sync_all at rows = (
  map (λ r. pass_row at r r.business_hours) rows,
  count_of (λ r. is_due at r r.business_hours) rows,
)

-- The passes of the worker at the instants `ts`.
abbrev pub passes : List ℕ → List Opening → List Opening
passes [] rows = rows
passes (t ∷ ts) rows = passes ts (sync_all t rows).0

abbrev pub toggled : RestaurantStatus → Opening → Opening
toggled status r = record r { status = status }

same_refl : (b : Bool) → same b b ≡ true
same_refl true = refl
same_refl false = refl

same-eq : (a b : Bool) → same a b ≡ true → a ≡ b
same-eq true true e = refl
same-eq false false e = refl
same-eq true false e = cc
same-eq false true e = cc

is_last-eq : (o : Option Bool) (b : Bool) → is_last o b ≡ true → o ≡ some b
is_last-eq none b e = cc
is_last-eq (some a) b e = ap some (same-eq a b e)

-- One store with saved hours among others.
module _ (id : ℕ) (hours : Hours) where
  abbrev pub store : RestaurantStatus → Option Bool → Opening
  store status last = record {
    id = id;
    business_hours = some hours;
    status = status;
    scheduled_open = last;
  }

  pass_row_settles :
      (at : ℕ) (old status : RestaurantStatus) (last : Option Bool)
      → toggled status (pass_row at (store old last) (some hours))
        ≡ store status (some (is_open_at hours at))
  pass_row_settles at old status last = elim (Bool-cases (is_last last (is_open_at hours at))) [
    | inl done ↦ rw done (ap (store status) (is_last-eq last (is_open_at hours at) done))
    | inr new ↦ rw new refl
  ]

  -- What a pass makes of a store whose last answer is known.
  abbrev pub next_status : (answer : Bool) → RestaurantStatus → Bool → RestaurantStatus
  next_status answer status new = if same answer new then status else wanted new

  pass_row_next :
      (at : ℕ) (status : RestaurantStatus) (answer : Bool)
      → pass_row at (store status (some answer)) (some hours)
        ≡ store (next_status answer status (is_open_at hours at)) (some (is_open_at hours at))
  pass_row_next at status answer = elim (Bool-cases (same answer (is_open_at hours at))) [
    | inl still ↦
        rw still (ap (λ b. store status (some b)) (same-eq answer (is_open_at hours at) still))
    | inr new ↦ rw new refl
  ]

  sync_all-one :
      (at : ℕ) (status : RestaurantStatus) (answer : Bool) (before after : List Opening)
      → (sync_all at (before ++ (store status (some answer) ∷ after))).0
        ≡ (sync_all at before).0
          ++ (store (next_status answer status (is_open_at hours at)) (some (is_open_at hours at))
              ∷ (sync_all at after).0)
  unfolding sync_all
  sync_all-one at status answer [] after =
      ap (λ x. x ∷ (sync_all at after).0) (pass_row_next at status answer)
  sync_all-one at status answer (b ∷ before) after =
      ap (λ l. pass_row at b b.business_hours ∷ l) (sync_all-one at status answer before after)

  passes_rest :
      (ts : List ℕ) (status : RestaurantStatus) (answer : Bool) (before after : List Opening)
      → All (λ t. is_open_at hours t ≡ answer) ts
      → passes ts (before ++ (store status (some answer) ∷ after))
        ≡ passes ts before ++ (store status (some answer) ∷ passes ts after)
  passes_rest [] status answer before after unchanged = refl
  passes_rest (t ∷ ts) status answer before after (e, unchanged) =
      let still : same answer answer ≡ true = same_refl answer in
      let one = sync_all-one t status answer before after in
      ap (passes ts) (rw (e, still) at one)
      ∙ passes_rest ts status answer (sync_all t before).0 (sync_all t after).0 unchanged

  -- A store with saved hours was passed over at `t0`, and then its vendor set its status. While the
  -- schedule's answer stays what it was at `t0`, the worker's passes leave the vendor's status; the
  -- pass at `t` that finds another answer sets the status to it. Other stores do not matter.
  pub sync_all_follows :
      (t0 t : ℕ) (ts : List ℕ) (old status : RestaurantStatus) (last : Option Bool)
      (before after : List Opening)
      → All (λ s. is_open_at hours s ≡ is_open_at hours t0) ts
      → (sync_all t (
          passes ts
            (before ++ (toggled status (pass_row t0 (store old last) (some hours)) ∷ after)))).0
        ≡ (sync_all t (passes ts before)).0
          ++ (store
                (next_status (is_open_at hours t0) status (is_open_at hours t))
                (some (is_open_at hours t))
              ∷ (sync_all t (passes ts after)).0)
  sync_all_follows t0 t ts old status last before after unchanged =
      ap (λ x. (sync_all t (passes ts (before ++ (x ∷ after)))).0)
        (pass_row_settles t0 old status last)
      ∙ ap (λ rows. (sync_all t rows).0)
          (passes_rest ts status (is_open_at hours t0) before after unchanged)
      ∙ sync_all-one t status (is_open_at hours t0) (passes ts before) (passes ts after)
