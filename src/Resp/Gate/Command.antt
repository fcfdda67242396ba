-- ===== src/Resp/Gate/Command.antt =====
-- One command of a client that shows no accepted secret (dispatch of internal/resp/server.go).
use tellstone.Prelude.{
  suc, ◌≡◌, refl, ap, ◌∙◌, sym, true, false, ◌&&◌, ◌||◌, inl, inr, Bool-cases, Option, none, List,
  [], ◌∷◌, Bytes, bytes_eq, bytes_eq_iff, codes, length, leb, get_or, if◌then◌else◌, map, upper,
  arith,
}
use tellstone.Rbac.Policy.{Policy}
use tellstone.Command.Store.{Store}
use tellstone.Command.Execute
use tellstone.Command.Execute.{
  Name, get_cmd, set_cmd, del_cmd, name_of, lookup_command, lookup_in, execute,
}
use tellstone.Command.Ttl.{equal_fold_ascii}
use tellstone.Resp.Protocol.{equal_fold, append_bulk, append_simple_string, append_error}
use tellstone.Resp.Session.{Conn, Config, Desk, Verifier, Authed, auth, resp_ok}
use tellstone.Resp.Dispatch.{
  World, Env, Admin, state_of, ctx_of, after_execute, dispatch, run_command, run_other, start_tls,
  no_auth,
}
use tellstone.Resp.Gate.{IsLocked, IsRefused, KeepsLocked, auth-IsLocked}

equal_fold-upper : (a b : Bytes) → equal_fold a b ≡ bytes_eq (map upper a) b
unfolding equal_fold bytes_eq
equal_fold-upper [] [] = refl
equal_fold-upper [] (y ∷ b) = refl
equal_fold-upper (x ∷ a) [] = refl
equal_fold-upper (x ∷ a) (y ∷ b) = rw (equal_fold-upper a b) refl

upper_of : (cmd b : Bytes) → equal_fold cmd b ≡ true → map upper cmd ≡ b
upper_of cmd b h = (bytes_eq_iff (map upper cmd) b).0 (sym (equal_fold-upper cmd b) ∙ h)

length-map : (a : Bytes) → length (map upper a) ≡ length a
length-map [] = refl
length-map (x ∷ a) = ap suc (length-map a)

equal_fold_ascii-length : (a b : Bytes) → equal_fold_ascii a b ≡ true → length a ≡ length b
unfolding equal_fold_ascii
equal_fold_ascii-length [] [] h = refl
equal_fold_ascii-length [] (y ∷ b) h = absurd (ground arith)
equal_fold_ascii-length (x ∷ a) [] h = absurd (ground arith)
equal_fold_ascii-length (x ∷ a) (y ∷ b) h = ap suc (equal_fold_ascii-length a b (ground arith))

-- A name of four bytes is none of the command layer.
lookup_command_four : (cmd : Bytes) → length cmd ≡ 4 → lookup_command cmd ≡ none
unfolding lookup_command lookup_in
lookup_command_four cmd h = ground (
  arith,
  equal_fold_ascii-length cmd (codes "GET"),
  equal_fold_ascii-length cmd (codes "SET"),
  equal_fold_ascii-length cmd (codes "DEL"),
)

start_tls-authenticated :
    (g : Config) (c : Conn) (args : List Bytes)
    → (start_tls g c args).0.authenticated ≡ c.authenticated
unfolding start_tls
start_tls-authenticated g c args = ground arith

module _ {S Error : Type 0} (store : Store S Error) (message : Error → Bytes) (admin : Admin)
    (g : Config) (v : Verifier) (policy : Option Policy) where
  -- What a step comes to, whatever the store and the counters of the roles are.
  abbrev pub Blind : Env → Conn → Desk → List Bytes → Authed → Type 0
  Blind e c d args r =
      (s : World S)
      → dispatch store message admin g e c (record s { desk = d }) args
        ≡ (r.0, record s { desk = r.1 }, r.2, r.3)

  execute_four :
      (ctx : Execute.Ctx) (cmd : Bytes) (args : List Bytes) (st : Execute.State S)
      → length cmd ≡ 4
      → execute store ctx (cmd ∷ args) st ≡ (st, none)
  execute_four ctx cmd args st h = unfold execute in ground (arith, lookup_command_four cmd h)

  run_command_four :
      (e : Env) (c : Conn) (w : World S) (cmd : Bytes) (args : List Bytes)
      → length cmd ≡ 4
      → run_command store message admin g e c w cmd (cmd ∷ args)
        ≡ run_other store message admin g e c w cmd (cmd ∷ args)
  run_command_four e c w cmd args h =
      unfold run_command in
      (ap (after_execute store message admin g e c w cmd (cmd ∷ args)) (
          execute_four (ctx_of store message admin g e c) cmd args (state_of store message admin w)
            h)
        ∙ (unfold after_execute in refl))

  ping_or_quit :
      (e : Env) (c : Conn) (d : Desk) (cmd : Bytes) (args : List Bytes)
      → IsLocked v policy c d
      → equal_fold cmd (codes "PING") || equal_fold cmd (codes "QUIT") ≡ true
      → (r : Authed) × KeepsLocked v policy r
        × ((s : World S)
            → run_command store message admin g e c (record s { desk = d }) cmd (cmd ∷ args)
              ≡ (r.0, record s { desk = r.1 }, r.2, r.3))
  ping_or_quit e c d cmd args l h = elim (Bool-cases (equal_fold cmd (codes "PING"))) [
    | inl ping ↦
        let u = upper_of cmd (codes "PING") ping in
        let four : length cmd ≡ 4 = sym (length-map cmd) ∙ ap length u in
        (
          (
            c,
            d,
            (if leb 2 (length (cmd ∷ args))
                then append_bulk (get_or (cmd ∷ args) 1 [])
                else append_simple_string (codes "PONG")),
            false,
          ),
          l,
          λ s.
              run_command_four e c (record s { desk = d }) cmd args four
              ∙ (unfold run_other in rw ping refl),
        )
    | inr other ↦
        let quit : equal_fold cmd (codes "QUIT") ≡ true = ground arith in
        let u = upper_of cmd (codes "QUIT") quit in
        let four : length cmd ≡ 4 = sym (length-map cmd) ∙ ap length u in
        (
          (record c { close_after_reply = true }, d, resp_ok, false),
          record { shut = l.shut; jobs_fail = l.jobs_fail; same_policy = l.same_policy },
          λ s.
              run_command_four e c (record s { desk = d }) cmd args four
              ∙ (unfold run_other bytes_eq in
                  rw
                    (
                      equal_fold-upper cmd (codes "PING"),
                      equal_fold-upper cmd (codes "COMMAND"),
                      equal_fold-upper cmd (codes "ROLE"),
                      equal_fold-upper cmd (codes "ACL"),
                      equal_fold-upper cmd (codes "QUIT"),
                      u,
                    )
                    refl),
        )
  ]

  -- Behind the gate of a connection that has not authenticated.
  through :
      (e : Env) (c : Conn) (w : World S) (cmd : Bytes) (args : List Bytes)
      → c.authenticated ≡ false
      → equal_fold cmd (codes "AUTH") ≡ false
      → g.start_tls && equal_fold cmd (codes "STARTTLS") ≡ false
      → equal_fold cmd (codes "PING") || equal_fold cmd (codes "QUIT") ≡ true
      → dispatch store message admin g e c w (cmd ∷ args)
        ≡ run_command store message admin g e c w cmd (cmd ∷ args)
  unfolding dispatch
  through e c w cmd args shut login tls known = ground arith

  pub dispatch-Blind :
      (e : Env) (c : Conn) (d : Desk) (args : List Bytes)
      → IsLocked v policy c d
      → IsRefused g v policy args
      → (r : Authed) × KeepsLocked v policy r × Blind e c d args r
  dispatch-Blind e c d [] l h =
      ((c, d, append_error (codes "ERR empty command"), false), l, λ s. unfold dispatch in refl)
  dispatch-Blind e c d (cmd ∷ args) l h = elim (Bool-cases (equal_fold cmd (codes "AUTH"))) [
    | inl login ↦ (
      auth g e.room e.now c d (cmd ∷ args),
      auth-IsLocked g v policy e.room e.now c d (cmd ∷ args) l (h login),
      λ s. unfold dispatch in rw login refl,
    )
    | inr other ↦ elim (Bool-cases (g.start_tls && equal_fold cmd (codes "STARTTLS"))) [
      | inl tls ↦ (
        ((start_tls g c (cmd ∷ args)).0, d, (start_tls g c (cmd ∷ args)).1, false),
        record {
          shut = start_tls-authenticated g c (cmd ∷ args) ∙ l.shut;
          jobs_fail = l.jobs_fail;
          same_policy = l.same_policy;
        },
        λ s. unfold dispatch in ground (arith, l.shut),
      )
      | inr plain ↦
          elim (Bool-cases (equal_fold cmd (codes "PING") || equal_fold cmd (codes "QUIT"))) [
            | inl known ↦
                let (r, k, ran) = ping_or_quit e c d cmd args l known in
                (
                  r,
                  k,
                  λ s.
                      through e c (record s { desk = d }) cmd args l.shut other (ground arith)
                        (ground arith)
                      ∙ ran s,
                )
            | inr unknown ↦
                ((c, d, no_auth, false), l, λ s. unfold dispatch in ground (arith, l.shut))
          ]
    ]
  ]
