-- ===== src/Store/Sound.antt =====
-- The tables under any sequence of service calls: the invariant of the rows.
use cheering_shop_backend.Prelude.{
  ℕ, ◌≡◌, refl, Bool, true, false, is_none, Option-cases, inl, inr, Option, none, some, List, ◌==◌,
  not, find?, All, All-find?, All-update_where, arith,
}
use cheering_shop_backend.Result.{
  Result, ok, err, saved, rows_after, ◌>>=◌, or_raise, raise_if, Error,
}
use cheering_shop_backend.Enums.{ActorType}
use cheering_shop_backend.Orders.{Order, Change}
use cheering_shop_backend.Orders.Handoff.{Crypto}
use cheering_shop_backend.Orders.Moves.{assign_rider, assignable, complete}
use cheering_shop_backend.Orders.Invariants.{IsSound}
use cheering_shop_backend.Orders.Lifecycle.{Action, perform, settled}
use cheering_shop_backend.Orders.Lifecycle.Keeps.{perform-IsSound}
use cheering_shop_backend.Store.{
  Tables, write, written, served, on_order, complete_row, deliver, deliver_as_admin, by_id,
  of_rider,
}
use cheering_shop_backend.Store.Dispatch.{assign_to_order, choose, pick_rider, resolve_rider}

abbrev pub AllSound : Tables → Type 0
AllSound t = All IsSound t.orders

-- How a call may end: with a value for which `P` holds, or with rows committed before it raised.
abbrev Ends : {A : Type 0} → (A → Type 0) → Result Tables A → Type 0
Ends P (ok a) = P a
Ends P (err _) = Unit
Ends P (saved t _) = AllSound t

Ends-bind :
    {A B : Type 0} (P : A → Type 0) (Q : B → Type 0) (m : Result Tables A) (f : A → Result Tables B)
    → Ends P m
    → ((a : A) → P a → Ends Q (f a))
    → Ends Q (m >>= f)
Ends-bind P Q (ok a) f h k = k a h
Ends-bind P Q (err e) f h k = tt
Ends-bind P Q (saved t e) f h k = h

Ends-or_raise :
    {A : Type 0} (found : Option A) (e : Error) → Ends (λ a. found ≡ some a) (or_raise found e)
Ends-or_raise none e = tt
Ends-or_raise (some a) e = refl

Ends-raise_if : (b : Bool) (e : Error) → Ends (λ _. Unit) (raise_if b e)
Ends-raise_if true e = tt
Ends-raise_if false e = tt

-- A call that ends well leaves sound rows.
pub rows_after-AllSound :
    (t : Tables) (r : Result Tables Tables)
    → Ends AllSound r
    → AllSound t
    → AllSound (rows_after t r)
rows_after-AllSound t (ok t') h all = h
rows_after-AllSound t (err e) h all = all
rows_after-AllSound t (saved t' e) h all = h

write-AllSound : (t : Tables) (c : Change) → AllSound t → IsSound c.order → AllSound (write t c)
unfolding write
write-AllSound t c all s =
    All-update_where IsSound (λ x. x.id == c.order.id) (λ _. c.order) t.orders (λ _ _ _. s) all

written-Ends :
    (t : Tables) (o : Order) (r : Result Change Change)
    → AllSound t
    → IsSound (settled o r).order
    → Ends AllSound (written t r)
written-Ends t o (ok c) all s = write-AllSound t c all s
written-Ends t o (err e) all s = tt
written-Ends t o (saved c e) all s = write-AllSound t c all s

served-Ends :
    (op : Order → Result Change Change) (t : Tables) (found : Option Order)
    → ((o : Order) → IsSound o → IsSound (settled o (op o)).order)
    → ((o : Order) → found ≡ some o → IsSound o)
    → AllSound t
    → Ends AllSound (served t op found)
served-Ends op t none keeps one all = tt
served-Ends op t (some o) keeps one all = written-Ends t o (op o) all (keeps o (one o refl))

-- Load, operate, write back: sound if the operation keeps the invariant of a row.
pub on_order-Ends :
    (scope : Order → Bool) (op : Order → Result Change Change) (t : Tables)
    → ((o : Order) → IsSound o → IsSound (settled o (op o)).order)
    → AllSound t
    → Ends AllSound (on_order scope op t)
unfolding on_order
on_order-Ends scope op t keeps all =
    served-Ends op t (find? scope t.orders) keeps (λ o. All-find? IsSound scope t.orders all) all

module _ (crypto : Crypto) where
  complete_row-Ends :
      (o : Order) (actor : ActorType) (actor_id now : ℕ) (t : Tables)
      → IsSound o
      → AllSound t
      → Ends AllSound (complete_row o actor actor_id now t)
  unfolding complete_row perform
  complete_row-Ends o actor actor_id now t s all =
      Ends-bind AllSound AllSound (written t (complete o actor actor_id now)) _
        (written-Ends t o (complete o actor actor_id now) all
          (perform-IsSound crypto (Action.deliver actor actor_id now) o s))
        (λ t' h. h)

  pub deliver-Ends :
      (rider order now : ℕ) (t : Tables) → AllSound t → Ends AllSound (deliver rider order now t)
  unfolding deliver
  deliver-Ends rider order now t all =
      Ends-bind _ AllSound (or_raise (find? (of_rider rider order) t.orders) _) _
        (Ends-or_raise (find? (of_rider rider order) t.orders) _)
        λ o e.
          complete_row-Ends o ActorType.rider rider now t (All-find? IsSound _ t.orders all e) all

  pub deliver_as_admin-Ends :
      (admin order now : ℕ) (t : Tables)
      → AllSound t
      → Ends AllSound (deliver_as_admin admin order now t)
  unfolding deliver_as_admin
  deliver_as_admin-Ends admin order now t all =
      Ends-bind _ AllSound (or_raise (find? (by_id order) t.orders) _) _
        (Ends-or_raise (find? (by_id order) t.orders) _)
        λ o e. Ends-bind _ AllSound (raise_if (is_none o.rider_id) _) _ (Ends-raise_if _ _) λ _ _.
          complete_row-Ends o ActorType.admin admin now t (All-find? IsSound _ t.orders all e) all

  choose-Ends :
      (rider : Option ℕ) (near : Option (List ℕ)) (t : Tables)
      → Ends (λ _. Unit) (choose rider near t)
  unfolding resolve_rider
  choose-Ends none near t = elim (Option-cases (pick_rider t near)) [
    | inl e ↦ rw e tt
    | inr (u, e) ↦ rw e tt
  ]
  choose-Ends (some rider) near t = ground arith

  pub assign_to_order-Ends :
      (order : ℕ) (rider : Option ℕ) (near : Option (List ℕ)) (t : Tables)
      → AllSound t
      → Ends AllSound (assign_to_order order rider near t)
  unfolding assign_to_order perform
  assign_to_order-Ends order rider near t all =
      Ends-bind _ AllSound (or_raise (find? (by_id order) t.orders) _) _
        (Ends-or_raise (find? (by_id order) t.orders) _)
        λ o e.
          Ends-bind _ AllSound (raise_if (not (assignable o.status)) _) _ (Ends-raise_if _ _) λ _ _.
            Ends-bind (λ _. Unit) AllSound (choose rider near t) _ (choose-Ends rider near t)
              λ u _.
                written-Ends t o (assign_rider o u.id) all (
                  perform-IsSound crypto (Action.assign u.id) o
                    (All-find? IsSound _ t.orders all e))
