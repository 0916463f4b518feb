-- ===== src/Enums/Graph.antt =====
-- The graph that ORDER_TRANSITIONS of app/models/enums.py draws.
use cheering_shop_backend.Prelude.{◌≡◌, true, ◌<◌, arith}
use cheering_shop_backend.Enums.{OrderStatus, position, one_of, order_transitions}

-- Every allowed move goes forward in the order of the enum, so no path visits a status twice.
pub transition_forward :
    (s t : OrderStatus) → one_of t (order_transitions s) ≡ true → position s < position t
transition_forward s t h = ground arith
