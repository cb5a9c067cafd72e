-- ===== src/Proxy/Tests.antt =====
-- Runs of the proxy's bookkeeping, and the theorems about them at those runs.
use hobbyist.Base.{
  ℕ, ◌+◌, ◌≡◌, ◌++◌, refl, subst, Bool, true, false, String, List, [], ◌∷◌, Option, none, some,
  length, arith, if◌then◌else◌, ◌==◌, codes, drop, text_eq, Text,
}
use hobbyist.Proxy.Bytes.{Bytes}
use hobbyist.Proxy.Startup.{
  Params, parsed, startup, cancel_request, gss_enc_request, parse_startup, build_startup_packet,
  build_cancel_request,
}
use hobbyist.Proxy.Startup.RoundTrip.{IsWire, parse_startup-build_startup_packet}
use hobbyist.Proxy.Startup.Stream.{IsAnswer, parse_startup-IsAnswer}
use hobbyist.Proxy.Backend.{
  scan_backend_startup, error_response, classify_backend_answer, not_ready, answered,
  cannot_connect_now,
}
use hobbyist.Proxy.Backend.Resume.{join, scan_backend_startup_resume}
use hobbyist.Proxy.Backend.Answers.{IsPlain, classify_backend_answer-error_response}
use hobbyist.Proxy.Activity.{ConnectionHandle, Tracker, empty, open_connection, close}
use hobbyist.Proxy.Activity.Calls.{
  IsTracker, call-IsTracker, empty-IsTracker, opens, resets, call, run,
}
use hobbyist.Proxy.Activity.Stale.{wiped, close_again}
use hobbyist.Proxy.Cancel.{CancelKey, Registry, Routes, add}
use hobbyist.Proxy.Cancel.Lookup.{IsRouted, add-IsRouted}

abbrev handle : ConnectionHandle
handle = record { resource_id = "db"; id = 1 }

abbrev one_open : Tracker
one_open = record { live = ("db", 1 ∷ []) ∷ []; idle_since = []; next_id = 1 }

opens_one : open_connection empty "db" ≡ (handle, one_open)
unfolding open_connection hobbyist.Base.Maps.put hobbyist.Base.Maps.remove hobbyist.Base.Maps.get
opens_one = refl

called : call empty (opens "db") ≡ one_open
unfolding call open_connection hobbyist.Base.Maps.put hobbyist.Base.Maps.remove
    hobbyist.Base.Maps.get
called = refl

one_open-IsTracker : IsTracker one_open
one_open-IsTracker = subst IsTracker called (call-IsTracker empty (opens "db") empty-IsTracker)

-- The socket of a reset resource ends after a new connection was opened: the count stays one.
close_again_example :
    close (run (call one_open (resets "db")) (opens "db" ∷ [])) handle 9
    ≡ run (call one_open (resets "db")) (opens "db" ∷ [])
close_again_example =
    close_again one_open handle (resets "db") (opens "db" ∷ []) 9 one_open-IsTracker (omega arith)
      wiped

abbrev mint : ℕ → CancelKey
mint n = record { process_id = n; secret_key = 7 }

abbrev routes : Routes
routes a = record {
  host = "127.0.0.1";
  port = a;
  backend_key = some (record { process_id = 42; secret_key = a });
}

-- The first key that `mint` gives is taken.
abbrev registry : Registry
registry = (mint 0, 5432) ∷ []

add-IsRouted_example : IsRouted routes registry 5433 (mint 1) (add mint 0 registry 5433)
add-IsRouted_example = add-IsRouted mint 0 routes registry 5433 (mint 1)

-- Text that is its own encoding.
abbrev same : Bytes → Bytes
same s = s

abbrev params : Params
params = (codes "user", codes "ada") ∷ (codes "database", codes "shop.main") ∷ []

user-IsWire : IsWire same same (codes "user", codes "ada")
user-IsWire = record {
  key_kept = refl;
  value_kept = refl;
  key_clean = refl;
  value_clean = refl;
  key_there = omega arith;
}

database-IsWire : IsWire same same (codes "database", codes "shop.main")
database-IsWire = record {
  key_kept = refl;
  value_kept = refl;
  key_clean = refl;
  value_clean = refl;
  key_there = omega arith;
}

parse_startup-build_startup_packet_example :
    parse_startup same (build_startup_packet same params 196608 ++ 7 ∷ [])
    ≡ parsed (startup 196608 params) (length (build_startup_packet same params 196608))
unfolding hobbyist.Proxy.Startup.assign text_eq hobbyist.Proxy.Startup.place
    hobbyist.Proxy.Startup.index_of hobbyist.Proxy.Startup.params_bytes
parse_startup-build_startup_packet_example =
    parse_startup-build_startup_packet same same params 196608 (7 ∷ [])
      (user-IsWire, (database-IsWire, tt)) refl (omega arith) (omega arith) (omega arith)

abbrev gss_bytes : Bytes
gss_bytes = 0 ∷ 0 ∷ 0 ∷ 8 ∷ 4 ∷ 210 ∷ 22 ∷ 48 ∷ []

parse_startup-IsAnswer_example : IsAnswer 8 (parse_startup same gss_bytes)
parse_startup-IsAnswer_example = parse_startup-IsAnswer same gss_bytes

gss_parsed : parse_startup same gss_bytes ≡ parsed gss_enc_request 8
unfolding parse_startup hobbyist.Proxy.Bytes.read_int32 hobbyist.Proxy.Startup.parse_frame
gss_parsed = refl

-- The first eight bytes of a BackendKeyData, and the five that are missing.
abbrev key_part : Bytes
key_part = 75 ∷ 0 ∷ 0 ∷ 0 ∷ 12 ∷ 0 ∷ 0 ∷ 0 ∷ []

abbrev key_more : Bytes
key_more = 42 ∷ 0 ∷ 0 ∷ 1 ∷ 2 ∷ []

scan_backend_startup_resume_example : scan_backend_startup (key_part ++ key_more) (mint 3) ≡ (
    if (scan_backend_startup key_part (mint 3)).is_done
    then scan_backend_startup key_part (mint 3)
    else join (scan_backend_startup key_part (mint 3)) (
        scan_backend_startup
          (drop (scan_backend_startup key_part (mint 3)).consumed key_part ++ key_more)
          (mint 3)))
scan_backend_startup_resume_example = scan_backend_startup_resume key_part key_more (mint 3)

ready_answered : classify_backend_answer same (82 ∷ 0 ∷ 0 ∷ 0 ∷ 4 ∷ []) ≡ answered
unfolding classify_backend_answer hobbyist.Proxy.Backend.classify_loop
    hobbyist.Proxy.Bytes.read_int32
ready_answered = refl

fatal-IsPlain : IsPlain same same (codes "FATAL")
fatal-IsPlain = record { kept = refl; clean = refl }

code-IsPlain : IsPlain same same cannot_connect_now
code-IsPlain = record { kept = refl; clean = refl }

starting-IsPlain : IsPlain same same (codes "starting up")
starting-IsPlain = record { kept = refl; clean = refl }

classify_backend_answer-error_response_example :
    classify_backend_answer same
      (error_response same (codes "FATAL") cannot_connect_now (codes "starting up") ++ [])
    ≡ (if text_eq cannot_connect_now cannot_connect_now
        then not_ready (codes "starting up")
        else answered)
unfolding hobbyist.Proxy.Backend.error_response_body
classify_backend_answer-error_response_example =
    classify_backend_answer-error_response same same (codes "FATAL") cannot_connect_now
      (codes "starting up") [] fatal-IsPlain code-IsPlain starting-IsPlain (omega arith)
