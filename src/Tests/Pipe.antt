-- ===== src/Tests/Pipe.antt =====
-- A connection, and a call of dial and one of Accept that still meet after the listener is closed.
use buildg.Prelude.{◌≤◌, ◌≡◌, refl, ◌⊎◌, true, false, [], ◌∷◌, AreDistinct}
use buildg.Client.Pipe.{
  PipeListener, new_pipe_listener, dials, accepts, meets, dial_ends, closes, Reaches, starts, goes,
}
use buildg.Client.Pipe.Joined.{connections, Reaches-joined}

abbrev closed_listener : PipeListener
closed_listener = record {
  next_pipe = 2;
  closed = true;
  dialling = 0 ∷ 1 ∷ [];
  accepting = 1;
  dialled = [];
  accepted = [];
  refused = 0;
}

closed_listener-Reaches : Reaches new_pipe_listener closed_listener
closed_listener-Reaches =
    goes _ _ _
      (goes _ _ _ (goes _ _ _ (goes _ _ _ (starts new_pipe_listener) (dials _)) (dials _))
        (accepts _))
      (closes _)

abbrev last_listener : PipeListener
last_listener = record {
  next_pipe = 2;
  closed = true;
  dialling = [];
  accepting = 0;
  dialled = 1 ∷ [];
  accepted = 1 ∷ [];
  refused = 2;
}

last_listener-Reaches : Reaches closed_listener last_listener
last_listener-Reaches =
    goes _ _ _
      (goes _ _ _ (goes _ _ _ (starts closed_listener) (meets _ (0 ∷ []) [] 1 0 refl refl))
        (dials _))
      (dial_ends _ [] [] 0 refl refl)

Reaches-joined_example :
    (last_listener.dialled ≡ last_listener.accepted)
    × AreDistinct last_listener.accepted
    × ((closed_listener.closed ≡ false)
        ⊎ ((last_listener.closed ≡ true)
            × (connections last_listener ≤ connections closed_listener)))
Reaches-joined_example =
    Reaches-joined closed_listener last_listener closed_listener-Reaches last_listener-Reaches
