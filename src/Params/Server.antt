-- ===== src/Params/Server.antt =====
-- The text protocol of src/interpreter/param_server.cpp: one command line, the change events, and
-- the loop of `handleClient` that cuts the received bytes into lines. Sockets are not modelled:
-- a client has the texts that are written to it.
use vision_pipe.Base.{
  ℕ, ◌-◌, Bool, true, false, not, ◌&&◌, ◌||◌, List, [], ◌∷◌, ◌++◌, ◌==◌, leb, if◌then◌else◌, Bytes,
  bytes, eq_bytes, keep,
}
use vision_pipe.Params.Value.{Floats, to_wire_string}
use vision_pipe.Params.Store.{
  ParamChangeEvent, ParameterStore, has, set_from_string, to_json, param_to_json,
}

unfoldable pub json_ok : Bytes
json_ok = bytes "{\"ok\":true}\n"

unfoldable pub json_escape : Bytes → Bytes
json_escape [] = []
json_escape (c ∷ s) = (if c == b'"' || c == b'\\' then b'\\' ∷ c ∷ [] else c ∷ []) ++ json_escape s

unfoldable pub json_error : Bytes → Bytes
unfolding json_escape
json_error msg = bytes "{\"ok\":false,\"error\":\"" ++ (json_escape msg ++ bytes "\"}\n")

abbrev is_space : ℕ → Bool
is_space c = c == b' ' || (leb 9 c && leb c 13)

-- `iss >> word`: the spaces in front are skipped, and the word ends at the next space.
unfoldable pub skip_spaces : Bytes → Bytes
skip_spaces [] = []
skip_spaces (c ∷ s) = if is_space c then skip_spaces s else c ∷ s

unfoldable pub take_word : Bytes → Bytes × Bytes
take_word [] = ([], [])
take_word (c ∷ s) = let (w, r) = take_word s in if is_space c then ([], c ∷ s) else (c ∷ w, r)

unfoldable pub read_word : Bytes → Bytes × Bytes
unfolding skip_spaces take_word
read_word s = take_word (skip_spaces s)

-- `std::getline`, which stops at a line feed.
unfoldable pub get_line : Bytes → Bytes
get_line [] = []
get_line (c ∷ s) = if c == b'\n' then [] else c ∷ get_line s

unfoldable pub drop_space : Bytes → Bytes
drop_space [] = []
drop_space (c ∷ s) = if c == b' ' then s else c ∷ s

unfoldable pub to_upper : ℕ → ℕ
to_upper c = if leb b'a' c && leb c b'z' then c - 32 else c

unfoldable pub upper : Bytes → Bytes
unfolding to_upper
upper [] = []
upper (c ∷ s) = to_upper c ∷ upper s

pub record Client : Type 0 where
  pub watch_all : Bool
  pub watch_list : List Bytes

unfoldable pub listed : Bytes → List Bytes → Bool
unfolding eq_bytes
listed name [] = false
listed name (w ∷ ws) = eq_bytes w name || listed name ws

-- `WATCH` and `UNWATCH`.
unfoldable pub watch : Bytes → Client → Client
unfolding listed
watch name c =
    if eq_bytes name (bytes "*")
    then record c { watch_all = true }
    else if listed name c.watch_list
    then c
    else record c { watch_list = c.watch_list ++ name ∷ [] }

unfoldable pub unwatch : Bytes → Client → Client
unfolding eq_bytes
unwatch name c =
    if eq_bytes name (bytes "*")
    then record { watch_all = false; watch_list = [] }
    else record c { watch_list = keep (λ w. not (eq_bytes w name)) c.watch_list }

-- The test of `pushChangeEvent` for one client.
unfoldable pub should_send : Bytes → Client → Bool
unfolding listed
should_send name c = c.watch_all || listed name c.watch_list

-- The event message.
unfoldable pub event_message : {D : Type 0} → Floats D → ParamChangeEvent D → Bytes
event_message fl evt =
    bytes "{\"event\":\"changed\",\"name\":\""
    ++ (evt.name
        ++ (bytes "\",\"old\":"
            ++ (to_wire_string fl evt.old_value
                ++ (bytes ",\"new\":" ++ (to_wire_string fl evt.new_value ++ bytes "}\n")))))

-- What a command leaves: the response, the client, the store, and the listeners' calls.
pub record Reply (D Cb : Type 0) : Type 0 where
  pub response : Bytes
  pub client : Client
  pub store : ParameterStore D Cb
  pub calls : List (Cb × ParamChangeEvent D)

module _ {D Cb : Type 0} (fl : Floats D) where
  abbrev pub answer : Bytes → Client → ParameterStore D Cb → Reply D Cb
  answer text c st = record { response = text; client = c; store = st; calls = [] }

  unfoldable pub set_command : Bytes → Client → ParameterStore D Cb → Reply D Cb
  unfolding read_word get_line drop_space json_error json_ok
  set_command args c st =
      let (name, after) = read_word args in
      let raw = drop_space (get_line after) in
      if eq_bytes name [] || eq_bytes raw []
      then answer (json_error (bytes "Usage: SET <name> <value>")) c st
      else (let (st', calls) = set_from_string fl name raw st in
          record { response = json_ok; client = c; store = st'; calls = calls })

  unfoldable pub get_command : Bytes → Client → ParameterStore D Cb → Reply D Cb
  unfolding read_word json_error
  get_command args c st =
      let name = (read_word args).0 in
      if eq_bytes name []
      then answer (json_error (bytes "Usage: GET <name>")) c st
      else if not (has name st)
      then answer (json_error (bytes "Parameter not found: " ++ name)) c st
      else answer (param_to_json fl name st ++ b'\n' ∷ []) c st

  unfoldable pub watch_command : Bytes → Client → ParameterStore D Cb → Reply D Cb
  unfolding read_word json_error json_ok
  watch_command args c st =
      let name = (read_word args).0 in
      if eq_bytes name []
      then answer (json_error (bytes "Usage: WATCH <name|*>")) c st
      else answer json_ok (watch name c) st

  -- `processCommand`.
  unfoldable pub process_command : Bytes → Client → ParameterStore D Cb → Reply D Cb
  unfolding read_word upper json_error json_ok eq_bytes
  process_command line c st =
      let (word, args) = read_word line in
      let cmd = upper word in
      if eq_bytes cmd (bytes "SET")
      then set_command args c st
      else if eq_bytes cmd (bytes "GET")
      then get_command args c st
      else if eq_bytes cmd (bytes "LIST")
      then answer (bytes "{\"ok\":true,\"params\":" ++ (to_json fl st ++ bytes "}\n")) c st
      else if eq_bytes cmd (bytes "WATCH")
      then watch_command args c st
      else if eq_bytes cmd (bytes "UNWATCH")
      then answer json_ok (unwatch (read_word args).0 c) st
      else if eq_bytes cmd (bytes "QUIT")
      then answer json_ok c st
      else answer (json_error (bytes "Unknown command: " ++ cmd)) c st
