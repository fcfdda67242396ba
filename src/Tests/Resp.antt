-- ===== src/Tests/Resp.antt =====
-- The codec, the session and the sweeper of the Redis-compatible listener, and the router, on
-- concrete inputs.
use tellstone.Prelude.{
  map, ◌≢◌, ℕ, ◌<◌, ◌≡◌, refl, true, false, none, some, List, [], ◌∷◌, ◌++◌, Bytes, bytes_eq, codes,
  arith, length, take,
}
use tellstone.Prelude.Table.{Table, lookup, insert, erase}
use tellstone.Rbac.AuthLog.{new_log}
use tellstone.Command.Store.{Store}
use tellstone.Command.Ttl.{atoi, decimal}
use tellstone.Resp.Protocol.{
  parsed, failed, incomplete, parse, parse_line, split_cr, parse_bulks, parse_bulk, bulk_body,
  append_array, append_bulk, append_number, digits, equal_fold,
}
use tellstone.Resp.Protocol.Stream.{command, parse-command}
use tellstone.Resp.Sweeper.{Pending, is_early, is_overdue, sweep}
use tellstone.Resp.Sweeper.Sorting.{sum, filter, sweep-filter}
use tellstone.Router.{hash_key}
use tellstone.Router.Hash.{hash_key-differs}
use tellstone.Resp.Session.{Conn, Config, Desk, Verifier, open_conn, connection_auth}
use tellstone.Resp.Dispatch.{World, Env, Admin}
use tellstone.Resp.Traffic.{Event, traffic, verified, run}
use tellstone.Resp.Gate.Buffer.{commands}
use tellstone.Resp.Gate.Stranger.{EventsRefused, run-stranger}

parse-command_example :
    ((rest : Bytes)
      → parse (command (codes "GET" ∷ codes "k" ∷ []) ++ rest)
        ≡ parsed (codes "GET" ∷ codes "k" ∷ []) rest)
    × ((k : ℕ)
        → k < length (command (codes "GET" ∷ codes "k" ∷ []))
        → parse (take k (command (codes "GET" ∷ codes "k" ∷ []))) ≡ failed incomplete)
parse-command_example =
    parse-command (codes "GET" ∷ codes "k" ∷ []) (omega arith) (omega arith, (omega arith, tt))

abbrev entries : Store (Table Bytes) Bytes
entries = record {
  get = λ k s. (s, lookup k s);
  set = λ k v ttl s. (insert k v s, none);
  delete = λ k s. (erase k s, true);
}

abbrev admin : Admin
admin f session args d = (d, [])

abbrev config : Config
config = record {
  start_tls = false;
  has_certificate = false;
  require_pass = some (codes "hash");
  has_policy = false;
  has_oauth = false;
  has_audit = false;
}

abbrev verifier : Verifier
verifier = record { compare = λ hash p. bytes_eq p (codes "secret"); verify = λ token. none }

abbrev desk : Desk
desk = record { policy = none; log = new_log; jobs = [] }

abbrev env : ℕ → Env
env i = record { room = true; now = i }

abbrev bytes : Bytes
bytes =
    command (codes "SET" ∷ codes "k" ∷ codes "v" ∷ [])
    ++ command (codes "auth" ∷ codes "guess" ∷ [])

abbrev events : List Event
events =
    traffic true env bytes ∷ verified true 5 ∷ traffic true env (command (codes "QUIT" ∷ [])) ∷ []

events-EventsRefused : EventsRefused config verifier none events
unfolding commands parse parse_line split_cr parse_bulks parse_bulk bulk_body append_array
    append_bulk append_number digits atoi decimal equal_fold bytes_eq
events-EventsRefused = (((λ h. refl), ((λ h. refl), tt)), (tt, (((λ h. refl), tt), tt)))

run-stranger_example :
    (r : Conn × Desk × Bytes) × (r.0.authenticated ≡ false)
    × ((s : World (Table Bytes))
        → run entries
            (λ e. e)
            admin
            config
            verifier
            (open_conn config none [])
            (record s { desk = desk })
            events
          ≡ (r.0, record s { desk = r.1 }, r.2))
unfolding open_conn connection_auth
run-stranger_example =
    run-stranger entries (λ e. e) admin config verifier (open_conn config none []) desk events refl
      refl events-EventsRefused

abbrev waiting : List Pending
waiting =
    record { conn = 1; finished = false; completed = false; deadline = 5 }
    ∷ record { conn = 2; finished = false; completed = true; deadline = 5 }
    ∷ record { conn = 3; finished = false; completed = false; deadline = 9 }
    ∷ []

sweep-filter_example :
    ((w : Pending → ℕ) → sum w (sweep 7 waiting).0 ≡ sum w (filter (is_early 7) waiting))
    × ((u : ℕ → ℕ)
        → sum u (sweep 7 waiting).1 ≡ sum u (map (λ p. p.conn) (filter (is_overdue 7) waiting)))
sweep-filter_example = sweep-filter 7 waiting

-- The published test vectors of FNV-1a on 32 bits.
hash_key-vectors :
    (hash_key [] ≡ 2166136261)
    × (hash_key (codes "a") ≡ 3826002220)
    × (hash_key (codes "foobar") ≡ 3214735720)
unfolding hash_key
hash_key-vectors = (refl, refl, refl)

hash_key-differs_example : hash_key (codes "user:1:a") ≢ hash_key (codes "user:2:a")
hash_key-differs_example =
    hash_key-differs (codes "user:") (codes ":a") 49 50 (omega arith, (omega arith, tt))
      (omega arith) (omega arith) (λ e. omega (arith, e))
