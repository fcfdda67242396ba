-- ===== src/Resp/Gate/Buffer.antt =====
-- A buffer of a client that shows no accepted secret (processBuffer of internal/resp/server.go).
use tellstone.Prelude.{
  ℕ, zero, suc, ◌≡◌, refl, ◌∙◌, subst, Bool, true, false, ◌&&◌, inl, inr, ◌⊎◌, Bool-cases, Option,
  List, [], ◌∷◌, ◌++◌, Bytes, arith,
}
use tellstone.Rbac.Policy.{Policy}
use tellstone.Command.Store.{Store}
use tellstone.Resp.Protocol.{Parsed, parsed, failed, incomplete, malformed, parse}
use tellstone.Resp.Session.{Conn, Config, Desk, Verifier}
use tellstone.Resp.Dispatch.{World, Env, Admin, dispatch}
use tellstone.Resp.Traffic.{turn, Next, halt, upgrade, more, next, process_buffer}
use tellstone.Resp.Gate.{IsLocked, IsRefused}
use tellstone.Resp.Gate.Command.{dispatch-Blind}

Next-cases : (x : Next) → (x ≡ halt) ⊎ (x ≡ upgrade) ⊎ (x ≡ more)
Next-cases halt = inl refl
Next-cases upgrade = inr (inl refl)
Next-cases more = inr (inr refl)

Parsed-cases :
    (x : Parsed)
    → (x ≡ failed incomplete)
      ⊎ (x ≡ failed malformed)
      ⊎ ((args : List Bytes) × (rest : Bytes) × (x ≡ parsed args rest))
Parsed-cases (failed incomplete) = inl refl
Parsed-cases (failed malformed) = inr (inl refl)
Parsed-cases (parsed args rest) = inr (inr (args, rest, refl))

-- The commands of a buffer, as many as are whole.
unfoldable pub commands : ℕ → Bytes → List (List Bytes)
commands zero src = []
commands (suc n) src = elim (parse src) [
  | failed e ↦ []
  | parsed args rest ↦ args ∷ commands n rest
]

commands_step :
    (n : ℕ) (src : Bytes) (args : List Bytes) (rest : Bytes)
    → parse src ≡ parsed args rest
    → commands (suc n) src ≡ args ∷ commands n rest
unfolding commands
commands_step n src args rest q = ground (arith, q)

abbrev pub AllRefused : Config → Verifier → Option Policy → List (List Bytes) → Type 0
AllRefused g v policy [] = Unit
AllRefused g v policy (args ∷ rest) = IsRefused g v policy args × AllRefused g v policy rest

abbrev pub Part : Type 0
Part = Conn × Desk × Bytes × Bytes × Bool

module _ {S Error : Type 0} (store : Store S Error) (message : Error → Bytes) (admin : Admin)
    (g : Config) (v : Verifier) (policy : Option Policy) where
  process_more :
      (n : ℕ) (written : Bool) (es : ℕ → Env) (c : Conn) (w : World S) (out src : Bytes)
      (args : List Bytes) (rest : Bytes) (c' : Conn) (w' : World S) (reply : Bytes) (async : Bool)
      → parse src ≡ parsed args rest
      → dispatch store message admin g (es 0) c w args ≡ (c', w', reply, async)
      → next async c' ≡ more
      → process_buffer store message admin (suc n) g written es c w out src
        ≡ process_buffer store message admin n g written (λ i. es (suc i)) c' w' (out ++ reply) rest
  unfolding process_buffer
  process_more n written es c w out src args rest c' w' reply async q ran on =
      ground (arith, q, ran, on)

  pub process_blind :
      (n : ℕ) (written : Bool) (es : ℕ → Env) (c : Conn) (d : Desk) (out src : Bytes)
      → IsLocked v policy c d
      → AllRefused g v policy (commands n src)
      → (t : Part) × IsLocked v policy t.0 t.1
        × ((s : World S)
            → process_buffer store message admin n g written es c (record s { desk = d }) out src
              ≡ turn t.0 (record s { desk = t.1 }) t.2 t.3 t.4)
  process_blind zero written es c d out src l h =
      ((c, d, out, src, false), l, λ s. unfold process_buffer in refl)
  process_blind (suc n) written es c d out src l h = elim (Parsed-cases (parse src)) [
    | inl q ↦ ((c, d, out, src, false), l, λ s. unfold process_buffer in ground (arith, q))
    | inr (inl q) ↦ ((c, d, out, src, true), l, λ s. unfold process_buffer in ground (arith, q))
    | inr (inr (args, rest, q)) ↦
        let all : AllRefused g v policy (args ∷ commands n rest) =
          subst (AllRefused g v policy) (commands_step n src args rest q) h in
        let (r, k, ran) = dispatch-Blind store message admin g v policy (es 0) c d args l all.0 in
        elim (Next-cases (next r.3 r.0)) [
          | inl stop ↦ (
            (r.0, r.1, out ++ r.2, rest, false),
            k,
            λ s. unfold process_buffer in ground (arith, q, ran s, stop),
          )
          | inr (inl tls) ↦ elim (Bool-cases (g.has_certificate && written)) [
            | inl fine ↦ (
              (record r.0 { has_tls = true; upgrade_tls = false }, r.1, out ++ r.2, rest, false),
              record { shut = k.shut; jobs_fail = k.jobs_fail; same_policy = k.same_policy },
              λ s. unfold process_buffer in ground (arith, q, ran s, tls),
            )
            | inr bad ↦ (
              (r.0, r.1, out ++ r.2, rest, true),
              k,
              λ s. unfold process_buffer in ground (arith, q, ran s, tls),
            )
          ]
          | inr (inr on) ↦
              let (t, k', went) =
                process_blind n written (λ i. es (suc i)) r.0 r.1 (out ++ r.2) rest k all.1 in
              (
                t,
                k',
                λ s.
                    process_more n written es c (record s { desk = d }) out src args rest r.0
                      (record s { desk = r.1 }) r.2 r.3 q (ran s) on
                    ∙ went s,
              )
        ]
  ]
