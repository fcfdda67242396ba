-- ===== src/Resp/Gate/Stranger.antt =====
-- A client that shows no accepted secret, on a connection of internal/resp/server.go.
use tellstone.Prelude.{
  ℕ, ◌≡◌, refl, ap, ◌∙◌, sym, subst, Bool, true, false, not, ◌&&◌, inl, inr, Bool-cases, Option,
  List, [], ◌∷◌, ◌++◌, Bytes, length, drop, if◌then◌else◌, arith,
}
use tellstone.Rbac.Policy.{Policy}
use tellstone.Rbac.Role.{Session}
use tellstone.Command.Store.{Store}
use tellstone.Resp.Session.{Conn, Config, Desk, Job, Verifier, judge, wake, woken, wake_jobs}
use tellstone.Resp.Dispatch.{World, Env, Admin}
use tellstone.Resp.Traffic.{
  turn, process_buffer, has_pipelined_starttls, closed, flush, on_traffic, deliver, Event, traffic,
  verified, handle, run,
}
use tellstone.Resp.Gate.{IsLocked, AllFail, auth_failed-IsLocked}
use tellstone.Resp.Gate.Buffer.{commands, AllRefused, Part, process_blind}

-- The bytes that arrive hold no AUTH with an accepted secret.
abbrev pub EventRefused : Config → Verifier → Option Policy → Event → Type 0
EventRefused g v policy (traffic written es src) = AllRefused g v policy (commands (length src) src)
EventRefused g v policy (verified written now) = Unit

abbrev pub EventsRefused : Config → Verifier → Option Policy → List Event → Type 0
EventsRefused g v policy [] = Unit
EventsRefused g v policy (ev ∷ evs) = EventRefused g v policy ev × EventsRefused g v policy evs

module _ {S Error : Type 0} (store : Store S Error) (message : Error → Bytes) (admin : Admin)
    (g : Config) (v : Verifier) (policy : Option Policy) where
  -- The part of a step that does not depend on the store.
  abbrev Heard : Type 0
  Heard = Conn × Desk × Bytes

  abbrev flushed : Bool → Part → Heard
  flushed written t =
      if t.4
      then (closed t.0, t.1, [])
      else if written
      then ((if t.0.close_after_reply then closed t.0 else t.0), t.1, t.2)
      else (closed t.0, t.1, [])

  flush_lem :
      (written : Bool) (t : Part) (s : World S)
      → flush written (turn t.0 (record s { desk = t.1 }) t.2 t.3 t.4)
        ≡ ((flushed written t).0, record s { desk = (flushed written t).1 }, (flushed written t).2)
  flush_lem written (c, d, out, rest, true) s = refl
  flush_lem true (c, d, out, rest, false) s = refl
  flush_lem false (c, d, out, rest, false) s = refl

  closed-IsLocked :
      (c : Conn) (d : Desk) (b : Bool)
      → IsLocked v policy c d
      → IsLocked v policy (if b then closed c else c) d
  closed-IsLocked c d true l = record {
    shut = l.shut;
    jobs_fail = l.jobs_fail;
    same_policy = l.same_policy;
  }
  closed-IsLocked c d false l = l

  flushed-IsLocked :
      (written : Bool) (t : Part)
      → IsLocked v policy t.0 t.1
      → IsLocked v policy (flushed written t).0 (flushed written t).1
  flushed-IsLocked written (c, d, out, rest, true) l = closed-IsLocked c d true l
  flushed-IsLocked true (c, d, out, rest, false) l = closed-IsLocked c d c.close_after_reply l
  flushed-IsLocked false (c, d, out, rest, false) l = closed-IsLocked c d true l

  settle :
      (written : Bool) (es : ℕ → Env) (c : Conn) (w : World S) (src : Bytes)
      → c.auth_pending ≡ false
      → not c.has_tls && (g.start_tls && has_pipelined_starttls (length src) true src) ≡ false
      → on_traffic store message admin g written es c w src
        ≡ flush written (process_buffer store message admin (length src) g written es c w [] src)
  unfolding on_traffic
  settle written es c w src idle fine = ground (arith, idle, fine)

  traffic_blind :
      (written : Bool) (es : ℕ → Env) (c : Conn) (d : Desk) (src : Bytes)
      → IsLocked v policy c d
      → AllRefused g v policy (commands (length src) src)
      → (r : Heard) × IsLocked v policy r.0 r.1
        × ((s : World S)
            → on_traffic store message admin g written es c (record s { desk = d }) src
              ≡ (r.0, record s { desk = r.1 }, r.2))
  traffic_blind written es c d src l h = elim (Bool-cases c.auth_pending) [
    | inl busy ↦ ((c, d, []), l, λ s. unfold on_traffic in ground (arith, busy))
    | inr idle ↦
        elim (Bool-cases
          (not c.has_tls && (g.start_tls && has_pipelined_starttls (length src) true src))) [
            | inl mixed ↦ (
              (closed c, d, []),
              closed-IsLocked c d true l,
              λ s. unfold on_traffic in ground (arith, idle, mixed),
            )
            | inr fine ↦
                let (t, k, ran) =
                  process_blind store message admin g v policy (length src) written es c d [] src l
                    h in
                (
                  flushed written t,
                  flushed-IsLocked written t k,
                  λ s.
                      settle written es c (record s { desk = d }) src idle fine
                      ∙ ap (flush written) (ran s)
                      ∙ flush_lem written t s,
                )
          ]
  ]

  woken-IsLocked :
      (now : ℕ) (c : Conn) (d : Desk) (reason : Bytes) (x : Bool × Option Session × Bytes)
      → IsLocked v policy c d
      → x.0 ≡ false
      → IsLocked v policy (woken g now c d reason x).0 (woken g now c d reason x).1
  unfolding woken
  woken-IsLocked now c d reason (true, session, username) l h = absurd (ground arith)
  woken-IsLocked now c d reason (false, session, username) l h =
      auth_failed-IsLocked g v policy now c d username reason l

  wake_jobs-IsLocked :
      (now : ℕ) (c : Conn) (d : Desk) (js : List Job)
      → IsLocked v policy c d
      → AllFail v policy js
      → IsLocked v policy (wake_jobs g v now c d js).0 (wake_jobs g v now c d js).1
  unfolding wake_jobs
  wake_jobs-IsLocked now c d [] l h = l
  wake_jobs-IsLocked now c d (j ∷ js) l h =
      woken-IsLocked now (record c { auth_pending = false }) (record d { jobs = js }) j.reason
        (judge v d.policy j)
        (record { shut = l.shut; jobs_fail = h.1; same_policy = l.same_policy })
        (ap (λ p. (judge v p j).0) l.same_policy ∙ h.0)

  deliver_blind :
      (written : Bool) (now : ℕ) (c : Conn) (d : Desk)
      → IsLocked v policy c d
      → (r : Heard) × IsLocked v policy r.0 r.1
        × ((s : World S)
            → deliver store message admin g v written now c (record s { desk = d })
              ≡ (r.0, record s { desk = r.1 }, r.2))
  unfolding deliver wake
  deliver_blind false now c d l =
      let k = wake_jobs-IsLocked now c d d.jobs l l.jobs_fail in
      let x = wake_jobs g v now c d d.jobs in
      ((closed x.0, x.1, []), closed-IsLocked x.0 x.1 true k, λ s. refl)
  deliver_blind true now c d l =
      let k = wake_jobs-IsLocked now c d d.jobs l l.jobs_fail in
      let x = wake_jobs g v now c d d.jobs in
      (
        ((if x.0.close_after_reply then closed x.0 else x.0), x.1, x.2),
        closed-IsLocked x.0 x.1 x.0.close_after_reply k,
        λ s. refl,
      )

  drop-AllFail : (js : List Job) → AllFail v policy js → AllFail v policy (drop 1 js)
  drop-AllFail [] h = h
  drop-AllFail (j ∷ js) h = h.1

  handle_live :
      (c : Conn) (w : World S) (ev : Event)
      → c.is_open ≡ true
      → handle store message admin g v c w ev ≡ elim ev [
        | traffic written es src ↦ on_traffic store message admin g written es c w src
        | verified written now ↦ deliver store message admin g v written now c w
      ]
  unfolding handle
  handle_live c w (traffic written es src) live = ground (arith, live)
  handle_live c w (verified written now) live = ground (arith, live)

  handle_blind :
      (c : Conn) (d : Desk) (ev : Event)
      → IsLocked v policy c d
      → EventRefused g v policy ev
      → (r : Heard) × IsLocked v policy r.0 r.1
        × ((s : World S)
            → handle store message admin g v c (record s { desk = d }) ev
              ≡ (r.0, record s { desk = r.1 }, r.2))
  handle_blind c d (traffic written es src) l h = elim (Bool-cases c.is_open) [
    | inl live ↦
        let (r, k, ran) = traffic_blind written es c d src l h in
        (r, k, λ s. handle_live c (record s { desk = d }) (traffic written es src) live ∙ ran s)
    | inr over ↦ ((c, d, []), l, λ s. unfold handle in ground (arith, over))
  ]
  handle_blind c d (verified written now) l h = elim (Bool-cases c.is_open) [
    | inl live ↦
        let (r, k, ran) = deliver_blind written now c d l in
        (r, k, λ s. handle_live c (record s { desk = d }) (verified written now) live ∙ ran s)
    | inr over ↦ (
      (c, record d { jobs = drop 1 d.jobs }, []),
      record {
        shut = l.shut;
        jobs_fail = drop-AllFail d.jobs l.jobs_fail;
        same_policy = l.same_policy;
      },
      λ s. unfold handle in ground (arith, over),
    )
  ]

  run_step :
      (c : Conn) (w : World S) (ev : Event) (evs : List Event) (c' : Conn) (w' : World S)
      (out : Bytes) (c'' : Conn) (w'' : World S) (outs : Bytes)
      → handle store message admin g v c w ev ≡ (c', w', out)
      → run store message admin g v c' w' evs ≡ (c'', w'', outs)
      → run store message admin g v c w (ev ∷ evs) ≡ (c'', w'', out ++ outs)
  unfolding run
  run_step c w ev evs c' w' out c'' w'' outs first then_ = ground (arith, first, then_)

  run_blind :
      (c : Conn) (d : Desk) (evs : List Event)
      → IsLocked v policy c d
      → EventsRefused g v policy evs
      → (r : Heard) × IsLocked v policy r.0 r.1
        × ((s : World S)
            → run store message admin g v c (record s { desk = d }) evs
              ≡ (r.0, record s { desk = r.1 }, r.2))
  run_blind c d [] l h = ((c, d, []), l, λ s. unfold run in refl)
  run_blind c d (ev ∷ evs) l h =
      let (r, k, ran) = handle_blind c d ev l h.0 in
      let (t, k', went) = run_blind r.0 r.1 evs k h.1 in
      (
        (t.0, t.1, r.2 ++ t.2),
        k',
        λ s.
            run_step c (record s { desk = d }) ev evs r.0 (record s { desk = r.1 }) r.2 t.0
              (record s { desk = t.1 }) t.2 (ran s) (went s),
      )

module _ {S Error : Type 0} (store : Store S Error) (message : Error → Bytes) (admin : Admin)
    (g : Config) (v : Verifier) where
  -- A connection that has not authenticated and has no verification waiting, and on which no AUTH
  -- command that arrives has a password or a token that the server accepts: whatever else arrives,
  -- and whatever the workers, the writes and the clock do, it is not authenticated, the store, the
  -- counters of the roles and the audit events of the command layer stay as they were, and every byte that the client
  -- receives is the same for any store.
  pub run-stranger :
      (c : Conn) (d : Desk) (evs : List Event)
      → c.authenticated ≡ false
      → d.jobs ≡ []
      → EventsRefused g v d.policy evs
      → (r : Conn × Desk × Bytes) × (r.0.authenticated ≡ false)
        × ((s : World S)
            → run store message admin g v c (record s { desk = d }) evs
              ≡ (r.0, record s { desk = r.1 }, r.2))
  run-stranger c d evs shut none_left h =
      let fail : AllFail v d.policy d.jobs = subst (AllFail v d.policy) (sym none_left) tt in
      let (r, k, ran) =
        run_blind store message admin g v d.policy c d evs
          (record { shut = shut; jobs_fail = fail; same_policy = refl }) h in
      (r, k.shut, ran)
