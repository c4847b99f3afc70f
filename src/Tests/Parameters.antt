-- ===== src/Tests/Parameters.antt =====
-- The parameter store, its wire format and its server on concrete values.
use vision_pipe.Base.{
  ℕ, ◌==◌, true, false, not, ◌||◌, ◌&&◌, List, [], ◌∷◌, ◌++◌, Option, none, some, ◌≡◌, ◌↔◌, refl,
  arith, Bytes, bytes, eq_bytes, All, if◌then◌else◌, inl, inr,
}
use vision_pipe.Base.Decimal.{pos, negsuc, to_string}
use vision_pipe.Params.Value.{
  ParamType, Floats, int_value, bool_value, string_value, coerce, from_wire_string, to_wire_string,
}
use vision_pipe.Params.Store.{
  ParameterStore, empty_store, set, get, subscribe, unsubscribe, declared_type,
}
use vision_pipe.Params.Laws.{
  Call, declares, sets, subscribes, IsTyped, run, get-set, run-empty-IsTyped,
}
use vision_pipe.Params.Wire.{wire-int, wire-bool, is_plain, wire-string_iff}
use vision_pipe.Params.Notify.{IdsBelow, set-subscribe, unsubscribe-subscribe, subscribe-IdsBelow}
use vision_pipe.Params.Snapshot.{cleared_cache, refresh_param_cache, run_turns, refresh-run_turns}
use vision_pipe.Params.Server.{Client, listed, watch, unwatch, should_send}
use vision_pipe.Params.Watching.{should_send-watch, should_send-unwatch}
use vision_pipe.Params.Session.{Session, c_string, find_newline}
use vision_pipe.Params.Pieces.{IsWaiting, joined, receive_all, receive_all-joined}

-- A stand-in for `double`: whole numbers without a sign, of which no text is one.
abbrev floats : Floats ℕ
floats = record {
  of_int = λ i. 1;
  to_int = λ d. pos d;
  is_zero = λ d. d == 0;
  stod = λ bs. none;
  show = λ d. to_string (pos d);
  print = λ d. to_string (pos d);
}

abbrev calls : List (Call ℕ ℕ)
calls =
    declares (bytes "gain") ParamType.int (int_value (pos 3))
    ∷ subscribes (bytes "gain") 7
    ∷ sets (bytes "gain") (int_value (pos 5))
    ∷ []

abbrev store : ParameterStore ℕ ℕ
store = run floats calls empty_store

run-empty-IsTyped_example : IsTyped (run floats calls empty_store)
run-empty-IsTyped_example = run-empty-IsTyped floats calls (inr (inl refl), (tt, (tt, tt)))

get-set_example : get (bytes "gain") (set floats (bytes "gain") (int_value (pos 9)) store).0 ≡ (
    if eq_bytes (bytes "gain") (bytes "gain")
    then coerce floats (declared_type (bytes "gain") store) (int_value (pos 9))
    else get (bytes "gain") store)
get-set_example = get-set floats (bytes "gain") (bytes "gain") (int_value (pos 9)) store

abbrev turns : List (Option (Call ℕ ℕ))
turns =
    some (declares (bytes "gain") ParamType.int (int_value (pos 3)))
    ∷ none
    ∷ some (sets (bytes "gain") (int_value (pos 5)))
    ∷ []

refresh-run_turns_example :
    (let s = run_turns floats turns (empty_store, cleared_cache) in
      (refresh_param_cache s.0 s.1).entries ≡ s.0.values)
refresh-run_turns_example = refresh-run_turns floats turns (omega arith)

wire-int_example :
    from_wire_string floats (to_wire_string floats (int_value (negsuc 41))) ParamType.int
    ≡ int_value (negsuc 41)
wire-int_example = wire-int floats (negsuc 41) ParamType.int (omega arith) (inl refl)

wire-bool_example :
    from_wire_string floats (to_wire_string floats (bool_value true)) ParamType.unknown
    ≡ bool_value true
wire-bool_example = wire-bool floats true ParamType.unknown (inr refl)

wire-string_iff_example :
    (from_wire_string floats (to_wire_string floats (string_value (bytes "a\"b"))) ParamType.string
      ≡ string_value (bytes "a\"b"))
    ↔ All (λ c. is_plain c ≡ true) (bytes "a\"b")
wire-string_iff_example = wire-string_iff floats (bytes "a\"b")

set-subscribe_example :
    (set floats (bytes "gain") (int_value (pos 9)) (subscribe [] 8 store).1).1
    ≡ (set floats (bytes "gain") (int_value (pos 9)) store).1
      ++ (if eq_bytes [] [] || eq_bytes [] (bytes "gain")
          then (
            8,
            record {
              name = bytes "gain";
              old_value = get (bytes "gain") store;
              new_value = coerce floats (declared_type (bytes "gain") store) (int_value (pos 9));
            },
          )
            ∷ []
          else [])
set-subscribe_example = set-subscribe floats (bytes "gain") [] 8 (int_value (pos 9)) store

-- A store with one listener.
abbrev listening : ParameterStore ℕ ℕ
listening = record {
  descriptors = [];
  values = [];
  listeners = record { id = 1; name = bytes "gain"; cb = 7 } ∷ [];
  next_listener_id = 2;
  gen = 0;
}

unsubscribe-subscribe_example :
    (let r = subscribe [] 8 listening in (unsubscribe r.0 r.1).listeners) ≡ listening.listeners
unsubscribe-subscribe_example = unsubscribe-subscribe [] 8 listening (omega arith, tt)

subscribe-IdsBelow_example : IdsBelow (subscribe [] 8 listening).1
subscribe-IdsBelow_example = subscribe-IdsBelow [] 8 listening (omega arith) (omega arith, tt)

abbrev client : Client
client = record { watch_all = false; watch_list = bytes "gain" ∷ [] }

should_send-watch_example : should_send (bytes "gain") (watch (bytes "mode") client) ≡ (
    eq_bytes (bytes "mode") (bytes "*")
    || (eq_bytes (bytes "mode") (bytes "gain") || should_send (bytes "gain") client))
should_send-watch_example = should_send-watch (bytes "gain") (bytes "mode") client

should_send-unwatch_example : should_send (bytes "gain") (unwatch (bytes "gain") client) ≡ (
    if eq_bytes (bytes "gain") (bytes "*")
    then false
    else client.watch_all
      || (not (eq_bytes (bytes "gain") (bytes "gain")) && listed (bytes "gain") client.watch_list))
should_send-unwatch_example = should_send-unwatch (bytes "gain") (bytes "gain") client

abbrev session : Session ℕ ℕ
session = record {
  buffer = [];
  client = client;
  store = store;
  written = [];
  calls = [];
  closed = false;
}

abbrev pieces : List Bytes
pieces = bytes "SET ga" ∷ bytes "in 4\nQU" ∷ bytes "IT\n" ∷ []

session-IsWaiting : IsWaiting floats session
unfolding IsWaiting find_newline
session-IsWaiting h = refl

receive_all-joined_example :
    receive_all floats pieces session ≡ receive_all floats (bytes "SET gain 4\nQUIT\n" ∷ []) session
unfolding joined c_string
receive_all-joined_example =
    receive_all-joined floats pieces (bytes "SET gain 4\nQUIT\n" ∷ []) session session-IsWaiting
      refl
