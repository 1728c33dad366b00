-- ===== src/Session/Loop/Table.antt =====
-- The stream table of the event loop (src/rmux/session.rs) as a map from stream ids.
use rsnova.Base.{ℕ, ◌≡◌, ◌≢◌, refl, Option, none, some, [], ◌∷◌, arith}
use rsnova.Stream.{MuxStream}
use rsnova.Session.{Streams, insert_stream}
use rsnova.Session.Loop.{get_stream, remove_stream, fill_entry}

pub get-insert_other :
    (j k : ℕ) (s : MuxStream) (m : Streams)
    → j ≢ k
    → get_stream j (insert_stream k s m) ≡ get_stream j m
unfolding get_stream insert_stream
get-insert_other j k s [] ne = ground (arith, ne)
get-insert_other j k s ((i, t) ∷ m) ne =
    let ih = get-insert_other j k s m ne in ground (arith, ne, ih)

pub get-insert_same :
    (k : ℕ) (s : MuxStream) (m : Streams) → get_stream k (insert_stream k s m) ≡ some s
unfolding get_stream insert_stream
get-insert_same k s [] = ground (arith)
get-insert_same k s ((i, t) ∷ m) = let ih = get-insert_same k s m in ground (arith, ih)

pub get-remove_other :
    (j k : ℕ) (m : Streams) → j ≢ k → get_stream j (remove_stream k m) ≡ get_stream j m
unfolding get_stream remove_stream
get-remove_other j k [] ne = refl
get-remove_other j k ((i, t) ∷ m) ne = let ih = get-remove_other j k m ne in ground (arith, ne, ih)

pub get-remove_same : (k : ℕ) (m : Streams) → get_stream k (remove_stream k m) ≡ none
unfolding get_stream remove_stream
get-remove_same k [] = refl
get-remove_same k ((i, t) ∷ m) = let ih = get-remove_same k m in ground (arith, ih)

pub get-fill_entry_other :
    (j k : ℕ) (s : MuxStream) (m : Streams) (o : Option MuxStream)
    → j ≢ k
    → get_stream j (fill_entry k s m o) ≡ get_stream j m
get-fill_entry_other j k s m none ne = get-insert_other j k s m ne
get-fill_entry_other j k s m (some old) ne = refl
