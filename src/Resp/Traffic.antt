-- ===== src/Resp/Traffic.antt =====
-- processBuffer and OnTraffic of internal/resp/server.go, and a worker's Wake with its write. A
-- buffer holds all bytes that have arrived and were not consumed; a deadline that passes and a
-- connection that the client ends are no events of this model.
use tellstone.Prelude.{
  ℕ, zero, suc, Bool, true, false, not, ◌&&◌, ◌||◌, List, [], ◌∷◌, ◌++◌, Bytes, codes, length, drop,
  ◌==◌, get_or, if◌then◌else◌,
}
use tellstone.Command.Store.{Store}
use tellstone.Resp.Protocol.{parsed, failed, incomplete, malformed, parse, equal_fold}
use tellstone.Resp.Session.{Conn, Config, Verifier, wake}
use tellstone.Resp.Dispatch.{World, Env, Admin, dispatch}

-- What a buffer comes to: the replies, the bytes that are left, and whether the connection must
-- close without them.
pub record Turn (S : Type 0) : Type 0 where
  pub conn : Conn
  pub world : World S
  pub out : Bytes
  pub rest : Bytes
  pub bad : Bool

abbrev pub turn : {S : Type 0} → Conn → World S → Bytes → Bytes → Bool → Turn S
turn c w out rest bad = record { conn = c; world = w; out = out; rest = rest; bad = bad }

pub data Next : Type 0 where
  halt upgrade more : Next

abbrev pub next : Bool → Conn → Next
next async c =
    if async
    then halt
    else if c.upgrade_tls
    then upgrade
    else if c.close_after_reply
    then halt
    else more

abbrev pub is_starttls : List Bytes → Bool
is_starttls args = length args == 1 && equal_fold (get_or args 0 []) (codes "STARTTLS")

-- hasPipelinedSTARTTLS behind the first `skipped` commands
unfoldable pub has_pipelined_starttls : ℕ → Bool → Bytes → Bool
unfolding parse equal_fold
has_pipelined_starttls zero first src = false
has_pipelined_starttls (suc n) first src = elim (parse src) [
  | failed _ ↦ false
  | parsed args rest ↦ elim (is_starttls args) [
    | true ↦ not first || not (length rest == 0)
    | false ↦ has_pipelined_starttls n false rest
  ]
]

abbrev pub Stepped : Type 0 → Type 0
Stepped S = Conn × World S × Bytes

abbrev pub closed : Conn → Conn
closed c = record c { is_open = false }

-- The write of the replies, and the close behind it.
abbrev pub flush : {S : Type 0} → Bool → Turn S → Stepped S
flush written t =
    if t.bad
    then (closed t.conn, t.world, [])
    else if written
    then ((if t.conn.close_after_reply then closed t.conn else t.conn), t.world, t.out)
    else (closed t.conn, t.world, [])

-- What happens to a connection: bytes, or a worker that is done with its first job.
pub data Event : Type 0 where
  traffic : Bool → (ℕ → Env) → Bytes → Event
  verified : Bool → ℕ → Event

module _ {S Error : Type 0} (store : Store S Error) (message : Error → Bytes) (admin : Admin) where
  -- upgradeToTLS, whose write and flush of the replies succeed or not.
  abbrev pub upgrade_to_tls : Config → Bool → Conn → World S → Bytes → Bytes → Turn S
  upgrade_to_tls g written c w out rest =
      if g.has_certificate && written
      then turn (record c { has_tls = true; upgrade_tls = false }) w out rest false
      else turn c w out rest true

  -- processBuffer, in as many turns as the buffer has bytes.
  unfoldable pub process_buffer :
      ℕ → Config → Bool → (ℕ → Env) → Conn → World S → Bytes → Bytes → Turn S
  unfolding dispatch parse
  process_buffer zero g written es c w out src = turn c w out src false
  process_buffer (suc n) g written es c w out src = elim (parse src) [
    | failed incomplete ↦ turn c w out src false
    | failed malformed ↦ turn c w out src true
    | parsed args rest ↦
        let (c', w', reply, async) = dispatch store message admin g (es 0) c w args in
        elim (next async c') [
          | halt ↦ turn c' w' (out ++ reply) rest false
          | upgrade ↦ upgrade_to_tls g written c' w' (out ++ reply) rest
          | more ↦ process_buffer n g written (λ i. es (suc i)) c' w' (out ++ reply) rest
        ]
  ]

  -- OnTraffic: onTrafficPlaintext, or handleDecryptedResp where the connection has TLS.
  unfoldable pub on_traffic : Config → Bool → (ℕ → Env) → Conn → World S → Bytes → Stepped S
  unfolding process_buffer has_pipelined_starttls
  on_traffic g written es c w src =
      if c.auth_pending
      then (c, w, [])
      else if not c.has_tls && (g.start_tls && has_pipelined_starttls (length src) true src)
      then (closed c, w, [])
      else flush written (process_buffer (length src) g written es c w [] src)

  -- authWorker's Wake
  unfoldable pub deliver : Config → Verifier → Bool → ℕ → Conn → World S → Stepped S
  unfolding wake
  deliver g v written now c w =
      let (c', d, reply) = wake g v now c w.desk in
      let w' = record w { desk = d } in
      if not written
      then (closed c', w', [])
      else ((if c'.close_after_reply then closed c' else c'), w', reply)

  unfoldable pub handle : Config → Verifier → Conn → World S → Event → Stepped S
  unfolding on_traffic deliver
  handle g v c w (traffic written es src) =
      if c.is_open then on_traffic g written es c w src else (c, w, [])
  handle g v c w (verified written now) =
      if c.is_open
      then deliver g v written now c w
      else (c, record w { desk = record w.desk { jobs = drop 1 w.desk.jobs } }, [])

  -- The events one after another, with all the bytes that the client receives.
  unfoldable pub run : Config → Verifier → Conn → World S → List Event → Stepped S
  unfolding handle
  run g v c w [] = (c, w, [])
  run g v c w (ev ∷ evs) =
      let (c', w', out) = handle g v c w ev in
      let (c'', w'', outs) = run g v c' w' evs in (c'', w'', out ++ outs)
