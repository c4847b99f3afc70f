-- ===== src/Params/Watching.antt =====
-- The watch list of a client of src/interpreter/param_server.cpp: which changes are pushed to it.
use vision_pipe.Base.{
  true, false, not, ◌&&◌, ◌||◌, List, [], ◌∷◌, ◌++◌, ◌≡◌, ap, arith, if◌then◌else◌, Bytes, bytes,
  eq_bytes, eq_bytes_iff, keep,
}
use vision_pipe.Params.Server.{Client, listed, watch, unwatch, should_send}

listed-append :
    (m n : Bytes) (ws : List Bytes) → listed m (ws ++ n ∷ []) ≡ (listed m ws || eq_bytes n m)
unfolding listed
listed-append m n [] = ground arith
listed-append m n (w ∷ ws) = ground (arith, listed-append m n ws)

listed-keep :
    (m n : Bytes) (ws : List Bytes)
    → listed m (keep (λ w. not (eq_bytes w n)) ws) ≡ (not (eq_bytes n m) && listed m ws)
unfolding listed
listed-keep m n [] = ground arith
listed-keep m n (w ∷ ws) =
    ground (arith, listed-keep m n ws, eq_bytes_iff w n, eq_bytes_iff n m, eq_bytes_iff w m)

listed-same : (m n : Bytes) (ws : List Bytes) → eq_bytes n m ≡ true → listed n ws ≡ listed m ws
listed-same m n ws h = ap (λ x. listed x ws) ((eq_bytes_iff n m).0 h)

-- After `WATCH n` a change of the parameter m is pushed exactly if n is the star, or n is m, or the
-- change was pushed before.
pub should_send-watch :
    (m n : Bytes) (c : Client)
    → should_send m (watch n c) ≡ (eq_bytes n (bytes "*") || (eq_bytes n m || should_send m c))
unfolding should_send watch
should_send-watch m n c =
    ground (arith, listed-append m n c.watch_list, listed-same m n c.watch_list)

-- After `UNWATCH n` no change is pushed if n is the star; else a change of m is pushed exactly if the
-- client watches all parameters, or m is on its list and is not n.
pub should_send-unwatch :
    (m n : Bytes) (c : Client)
    → should_send m (unwatch n c) ≡ (
        if eq_bytes n (bytes "*")
        then false
        else c.watch_all || (not (eq_bytes n m) && listed m c.watch_list))
unfolding should_send unwatch listed
should_send-unwatch m n c = ground (arith, listed-keep m n c.watch_list)
