-- ===== src/Network/Server/Gate.antt =====
-- Which frames the application handler of the binary server is asked for.
use tellstone.Prelude.{
  ℕ, zero, suc, ◌+◌, ◌≡◌, ◌⊎◌, inl, inr, refl, ap, ◌∙◌, sym, subst, Bool, true, false, not, ◌&&◌,
  ◌||◌, Option, none, some, [], Bytes, bytes_eq, codes, length, drop, ◌==◌, if◌then◌else◌, arith,
}
use tellstone.Prelude.Run.{Run, done, panics}
use tellstone.Rbac.Role.{Session, new_session}
use tellstone.Rbac.Policy.{Policy, User, role_for, user_for}
use tellstone.Network.Frame.{Message, short_read, decoded, failed, Decoded, decode}
use tellstone.Resp.Session.{Desk, Job, is_jwt}
use tellstone.Network.Server.{
  msg_ping, msg_auth, Gated, is_unprotected, name_of, parse_auth_payload, Conn, Config, answered,
  dispatched, passes, At, auth_failed, dispatch_job, auth_user, auth_password, auth_parsed,
  handle_auth, op_authorized, gate_message, Handler, World, reply, handled, count_frame,
  run_handler, one_frame, traffic, on_traffic, blank,
}

-- A frame that the handler may be asked for: a PING, or one of an authenticated client that its
-- session allows where there is a policy.
abbrev pub may_run : Config → Bool → Option Session → Message → Bool
may_run g authenticated session m =
    not (m.type == msg_auth)
    && ((m.type == msg_ping || authenticated) && (not g.has_policy || op_authorized m session))

runs_lem :
    (auth ping known policy granted : Bool)
    → auth ≡ false
    → (not known && not ping) ≡ false
    → (policy && not granted) ≡ false
    → (not auth && ((ping || known) && (not policy || granted))) ≡ true
runs_lem auth ping known policy granted a h k = ground arith

abbrev is_passing : Gated → Bool
is_passing passes = true
is_passing dispatched = false
is_passing (answered type payload) = false

-- The credentials of the connection stay, and the frame does not pass.
abbrev Stops : Conn → At → Type 0
Stops c x =
    (x.0.authenticated ≡ c.authenticated) × (x.0.session ≡ c.session) × (is_passing x.2 ≡ false)

dispatch_job-Stops :
    (room : Bool) (c : Conn) (d : Desk) (job : Job) → Stops c (dispatch_job room c d job)
unfolding dispatch_job
dispatch_job-Stops true c d job = (refl, refl, refl)
dispatch_job-Stops false c d job = (refl, refl, refl)

auth_failed-Stops :
    (g : Config) (now : ℕ) (c : Conn) (d : Desk) (username reason : Bytes)
    → Stops c (auth_failed g now c d username reason)
unfolding auth_failed
auth_failed-Stops g now c d username reason = (refl, refl, refl)

auth_user-Stops :
    (g : Config) (room : Bool) (now : ℕ) (c : Conn) (d : Desk) (username password : Bytes)
    → Stops c (auth_user g room now c d username password)
unfolding auth_user
auth_user-Stops g room now c d username password = go d.policy
  where
    found :
        (p : Policy) (x : Option User)
        → Stops c (elim x [
          | none ↦ auth_failed g now c d (name_of username) (codes "unknown user")
          | some u ↦ dispatch_job room c d (record {
            password = password;
            pass_hash = if length u.password_hash == 0 then none else some u.password_hash;
            username = name_of username;
            reason = codes "invalid password";
            session = some (new_session (name_of username) (role_for (some p) (name_of username)));
            oauth = false;
          })
        ])
    found p none = auth_failed-Stops g now c d (name_of username) (codes "unknown user")
    found p (some u) = dispatch_job-Stops room c d _

    go :
        (x : Option Policy)
        → Stops c (elim x [
          | none ↦ auth_failed g now c d username (codes "policy not loaded")
          | some p ↦ elim (user_for (some p) (name_of username)) [
            | none ↦ auth_failed g now c d (name_of username) (codes "unknown user")
            | some u ↦ dispatch_job room c d (record {
              password = password;
              pass_hash = if length u.password_hash == 0 then none else some u.password_hash;
              username = name_of username;
              reason = codes "invalid password";
              session =
                  some (new_session (name_of username) (role_for (some p) (name_of username)));
              oauth = false;
            })
          ]
        ])
    go none = auth_failed-Stops g now c d username (codes "policy not loaded")
    go (some p) = found p (user_for (some p) (name_of username))

if-Stops : (c : Conn) (b : Bool) (x y : At) → Stops c x → Stops c y → Stops c (if b then x else y)
if-Stops c true x y h k = h
if-Stops c false x y h k = k

handle_auth-Stops :
    (g : Config) (room : Bool) (now : ℕ) (c : Conn) (d : Desk) (value : Bytes)
    → Stops c (handle_auth g room now c d value)
unfolding handle_auth auth_parsed auth_password
handle_auth-Stops g room now c d value =
    if-Stops c (is_unprotected g) _ _ (refl, refl, refl) (go (parse_auth_payload value))
  where
    go : (x : Option (Bytes × Bytes)) → Stops c (auth_parsed g room now c d x)
    go none = auth_failed-Stops g now c d [] (codes "malformed request")
    go (some (username, password)) =
        if-Stops c (g.has_oauth && (length username == 0 && is_jwt password)) _ _
          (dispatch_job-Stops room c d _)
          (if-Stops c g.has_policy _ _ (auth_user-Stops g room now c d username password) (
            if-Stops c (not (length username == 0) && not (bytes_eq username (codes "default"))) _ _
              (auth_failed-Stops g now c d username (codes "unknown user"))
              (dispatch_job-Stops room c d _)))

-- The credentials of the connection stay, and a frame passes only where it may.
abbrev Guarded : Config → Conn → Message → At → Type 0
Guarded g c m x =
    (x.0.authenticated ≡ c.authenticated)
    × (x.0.session ≡ c.session)
    × ((is_passing x.2 ≡ false) ⊎ (may_run g c.authenticated c.session m ≡ true))

if_either :
    {A : Type 0} (P : A → Type 0) (b : Bool) {x y : A}
    → (b ≡ true → P x)
    → (b ≡ false → P y)
    → P (if b then x else y)
if_either P true h k = h refl
if_either P false h k = k refl

gate_message-Guarded :
    (g : Config) (room : Bool) (now : ℕ) (c : Conn) (d : Desk) (m : Message)
    → Guarded g c m (gate_message g room now c d m)
unfolding gate_message
gate_message-Guarded g room now c d m =
    if_either (Guarded g c m) (m.type == msg_auth)
      (λ auth. let (a, s, stops) = handle_auth-Stops g room now c d m.value in (a, s, inl stops))
      (λ other.
        if_either (Guarded g c m) (not c.authenticated && not (m.type == msg_ping))
          (λ stranger. (refl, refl, inl refl))
          (λ known.
            if_either (Guarded g c m) (g.has_policy && not (op_authorized m c.session))
              (λ denied. (refl, refl, inl refl))
              (λ allowed. (
                refl,
                refl,
                inr (
                    runs_lem (m.type == msg_auth) (m.type == msg_ping) c.authenticated g.has_policy
                      (op_authorized m c.session) other known allowed),
              ))))

module _ {S : Type 0} where
  -- Two handlers that agree on the frames that may pass.
  abbrev pub Agree : Config → Bool → Option Session → Handler S → Handler S → Type 0
  Agree g authenticated session f f' =
      (s : S) (m : Message) → may_run g authenticated session m ≡ true → f s m ≡ f' s m

  run_gated :
      (g : Config) (c : Conn) (f f' : Handler S) (ok : Bool) (w : World S) (m : Message) (x : At)
      → Guarded g c m x
      → Agree g c.authenticated c.session f f'
      → run_handler g f ok (record w { conn = x.0; desk = x.1 }) m x.2
        ≡ run_handler g f' ok (record w { conn = x.0; desk = x.1 }) m x.2
  unfolding run_handler
  run_gated g c f f' ok w m (c', d, answered type payload) h a = refl
  run_gated g c f f' ok w m (c', d, dispatched) h a = refl
  run_gated g c f f' ok w m (c', d, passes) (p, q, inl stops) a = absurd (ground (arith, stops))
  run_gated g c f f' ok w m (c', d, passes) (p, q, inr may) a =
      ap (handled ok (count_frame g (record w { conn = c'; desk = d }) m)) (a w.app m may)

  one_frame-Agree :
      (g : Config) (f f' : Handler S) (room ok : Bool) (now : ℕ) (w : World S) (m : Message)
      → Agree g w.conn.authenticated w.conn.session f f'
      → one_frame g f room ok now w m ≡ one_frame g f' room ok now w m
  unfolding one_frame
  one_frame-Agree g f f' room ok now w m a =
      run_gated g w.conn f f' ok w m (gate_message g room now w.conn w.desk m)
        (gate_message-Guarded g room now w.conn w.desk m) a

  reply-conn :
      (ok : Bool) (w : World S) (payload : Option Bytes) (type : ℕ)
      → (reply ok w payload type).conn ≡ w.conn
  unfolding reply
  reply-conn ok w none type = refl
  reply-conn true w (some payload) type = refl
  reply-conn false w (some payload) type = refl

  run_handler-conn :
      (g : Config) (f : Handler S) (ok : Bool) (w : World S) (m : Message) (x : Gated)
      → (run_handler g f ok w m x).conn ≡ w.conn
  unfolding run_handler
  run_handler-conn g f ok w m (answered type payload) = reply-conn ok w (some payload) type
  run_handler-conn g f ok w m dispatched = refl
  run_handler-conn g f ok w m passes = go (f w.app m)
    where
      go : (x : S × Option (Option Bytes × ℕ)) → (handled ok (count_frame g w m) x).conn ≡ w.conn
      go (s, none) = refl
      go (s, some (payload, type)) =
          reply-conn ok (record (count_frame g w m) { app = s }) payload type

  -- A frame leaves the credentials of the connection as they are.
  one_frame-credentials :
      (g : Config) (f : Handler S) (room ok : Bool) (now : ℕ) (w : World S) (m : Message)
      → ((one_frame g f room ok now w m).conn.authenticated ≡ w.conn.authenticated)
        × ((one_frame g f room ok now w m).conn.session ≡ w.conn.session)
  unfolding one_frame
  one_frame-credentials g f room ok now w m =
      let x = gate_message g room now w.conn w.desk m in
      let (a, s, _) = gate_message-Guarded g room now w.conn w.desk m in
      let same = run_handler-conn g f ok (record w { conn = x.0; desk = x.1 }) m x.2 in
      (ap (λ c. c.authenticated) same ∙ a, ap (λ c. c.session) same ∙ s)

  traffic-Agree :
      (n : ℕ) (g : Config) (f f' : Handler S) (room ok : ℕ → Bool) (now : ℕ → ℕ) (w : World S)
      (buf : Bytes)
      → Agree g w.conn.authenticated w.conn.session f f'
      → traffic n g f room ok now w buf ≡ traffic n g f' room ok now w buf
  unfolding traffic
  traffic-Agree zero g f f' room ok now w buf a = refl
  traffic-Agree (suc n) g f f' room ok now w buf a = go (decode buf g.max_msg_size blank) (λ m k.
      let (same, pinned) = one_frame-credentials g f' (room 0) (ok 0) (now 0) w m in
      traffic-Agree n g f f' (λ i. room (suc i)) (λ i. ok (suc i)) (λ i. now (suc i))
        (one_frame g f' (room 0) (ok 0) (now 0) w m) k
        (subst (λ b. Agree g b (one_frame g f' (room 0) (ok 0) (now 0) w m).conn.session f f')
          (sym same) (subst (λ s. Agree g w.conn.authenticated s f f') (sym pinned) a)))
    where
      rest : Handler S → World S → Bytes → Run (World S × Bytes)
      rest h w' k = traffic n g h (λ i. room (suc i)) (λ i. ok (suc i)) (λ i. now (suc i)) w' k

      step : Handler S → Message → ℕ → World S → Run (World S × Bytes)
      step h m len w' =
          if w'.closes
          then done (w', buf)
          else if w'.conn.auth_pending
          then done (w', drop (5 + len) buf)
          else rest h w' (drop (5 + len) buf)

      again :
          (m : Message) (len : ℕ) (w' : World S)
          → rest f w' (drop (5 + len) buf) ≡ rest f' w' (drop (5 + len) buf)
          → step f m len w' ≡ step f' m len w'
      again m len w' = ap (λ r.
          if w'.closes
          then done (w', buf)
          else if w'.conn.auth_pending
          then done (w', drop (5 + len) buf)
          else r)

      go :
          (x : Run (Message × Decoded))
          → ((m : Message) (k : Bytes)
              → rest f (one_frame g f' (room 0) (ok 0) (now 0) w m) k
                ≡ rest f' (one_frame g f' (room 0) (ok 0) (now 0) w m) k)
          → elim x [
            | panics ↦ panics
            | done (m, failed short_read) ↦ done (w, buf)
            | done (m, failed err) ↦ done (record w { closes = true }, buf)
            | done (m, decoded len) ↦ step f m len (one_frame g f (room 0) (ok 0) (now 0) w m)
          ]
            ≡ elim x [
              | panics ↦ panics
              | done (m, failed short_read) ↦ done (w, buf)
              | done (m, failed err) ↦ done (record w { closes = true }, buf)
              | done (m, decoded len) ↦ step f' m len (one_frame g f' (room 0) (ok 0) (now 0) w m)
            ]
      go panics more = refl
      go (done (m, failed err)) more = refl
      go (done (m, decoded len)) more =
          ap (step f m len) (one_frame-Agree g f f' (room 0) (ok 0) (now 0) w m a)
          ∙ again m len (one_frame g f' (room 0) (ok 0) (now 0) w m) (more m (drop (5 + len) buf))

  -- On a plaintext connection, whatever bytes are there, whether or not the workers have room and the
  -- writes succeed: the loop asks the application handler for no frame but a PING, or one of an
  -- authenticated client that its session allows where there is a policy, and never for an AUTH. Any
  -- other handler that agrees on these frames gives the same connection, state and replies.
  pub on_traffic-Agree :
      (g : Config) (f f' : Handler S) (room ok : ℕ → Bool) (now : ℕ → ℕ) (w : World S) (buf : Bytes)
      → Agree g w.conn.authenticated w.conn.session f f'
      → on_traffic g f room ok now w buf ≡ on_traffic g f' room ok now w buf
  unfolding on_traffic
  on_traffic-Agree g f f' room ok now w buf a =
      ap (λ r. if w.conn.auth_pending then done (w, buf) else r)
        (traffic-Agree (length buf) g f f' room ok now w buf a)
