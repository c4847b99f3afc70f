-- ===== src/Params/Session.antt =====
-- `handleClient` of src/interpreter/param_server.cpp: the bytes that arrive, in whatever pieces
-- `recv` delivers them, are cut into command lines.
use vision_pipe.Base.{
  ℕ, zero, suc, Bool, ◌||◌, List, [], ◌∷◌, ◌++◌, Option, none, some, ◌==◌, if◌then◌else◌, Bytes,
  bytes, eq_bytes, length,
}
use vision_pipe.Params.Value.{Floats}
use vision_pipe.Params.Store.{ParamChangeEvent, ParameterStore}
use vision_pipe.Params.Server.{Client, process_command}

-- `closed` once the function has returned; its line buffer is gone then.
pub record Session (D Cb : Type 0) : Type 0 where
  pub buffer : Bytes
  pub client : Client
  pub store : ParameterStore D Cb
  pub written : List Bytes
  pub calls : List (Cb × ParamChangeEvent D)
  pub closed : Bool

-- `lineBuf += buf` reads a C string, so it stops at a zero byte.
unfoldable pub c_string : Bytes → Bytes
c_string [] = []
c_string (b ∷ bs) = if b == 0 then [] else b ∷ c_string bs

-- `find('\n')`, with what stands before it and behind it.
unfoldable pub find_newline : Bytes → Option (Bytes × Bytes)
find_newline [] = none
find_newline (b ∷ bs) =
    if b == b'\n'
    then some ([], bs)
    else elim (find_newline bs) [ none ↦ none | some (l, r) ↦ some (b ∷ l, r) ]

-- Strip one `\r` from the end.
unfoldable pub strip_return : Bytes → Bytes
strip_return [] = []
strip_return (b ∷ []) = if b == b'\r' then [] else b ∷ []
strip_return (b ∷ c ∷ bs) = b ∷ strip_return (c ∷ bs)

unfoldable pub is_quit : Bytes → Bool
unfolding eq_bytes
is_quit line = eq_bytes line (bytes "QUIT") || eq_bytes line (bytes "quit")

module _ {D Cb : Type 0} (fl : Floats D) where
  -- One complete line, `rest` being what is left in the buffer.
  unfoldable pub run_line : Bytes → Session D Cb → Session D Cb
  unfolding is_quit
  run_line line s =
      let r = process_command fl line s.client s.store in
      record {
        buffer = if is_quit line then [] else s.buffer;
        client = r.client;
        store = r.store;
        written = if eq_bytes r.response [] then s.written else s.written ++ r.response ∷ [];
        calls = s.calls ++ r.calls;
        closed = is_quit line;
      }

  unfoldable pub handle_line : Bytes → Session D Cb → Session D Cb
  unfolding run_line strip_return eq_bytes
  handle_line line s = if eq_bytes (strip_return line) [] then s else run_line (strip_return line) s

  -- The inner loop, on fuel.
  unfoldable pub drain : ℕ → Session D Cb → Session D Cb
  unfolding handle_line find_newline
  drain zero s = s
  drain (suc fuel) s = elim (find_newline s.buffer) [
    | none ↦ s
    | some (line, rest) ↦
        let s' = handle_line line (record s { buffer = rest }) in
        let more = drain fuel s' in if s'.closed then s' else more
  ]

  -- One piece from `recv`.
  unfoldable pub receive : Bytes → Session D Cb → Session D Cb
  unfolding drain c_string
  receive piece s =
      let filled = record s { buffer = s.buffer ++ c_string piece } in
      if s.closed then s else drain (suc (length filled.buffer)) filled
