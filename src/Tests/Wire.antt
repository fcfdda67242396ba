-- ===== src/Tests/Wire.antt =====
-- Frames of the binary protocol on concrete inputs.
use tellstone.Prelude.{
  ℕ, ◌+◌, ◌≡◌, ◌↔◌, refl, true, false, some, if◌then◌else◌, none, [], ◌∷◌, ◌++◌, codes, arith,
  length, replicate,
}
use tellstone.Prelude.Run.{done, panics}
use tellstone.Rbac.AuthLog.{new_log}
use tellstone.Network.Frame.{
  Message, Decoded, decoded, payload_of, marshal, decode, unmarshal, put32, write, read,
}
use tellstone.Network.Server.{Config, World, Handler, on_traffic}
use tellstone.Network.Server.Gate.{may_run, on_traffic-Agree}
use tellstone.Network.Frame.RoundTrip.{decode-marshal, read-write}
use tellstone.Network.Frame.Panics.{IsOverlong, decode-done, unmarshal-panics}

abbrev request : Message
request = record {
  type = 2;
  op = 2;
  ttl = 18446744073709551615;
  key = codes "k";
  value = codes "v";
  payload = [];
}

abbrev blank : Message
blank = record { type = 0; op = 9; ttl = 0; key = codes "old"; value = []; payload = [] }

decode-marshal_example :
    decode (marshal request ++ codes "next") 1000 blank
    ≡ done (record request { payload = payload_of request }, decoded (length (payload_of request)))
unfolding payload_of
decode-marshal_example =
    decode-marshal request blank (codes "next") 1000 refl (omega arith) (omega arith) (omega arith)
      (omega arith)

read-write_example :
    read (write 3 (codes "OK") ++ codes "next") 512 blank
    ≡ (record blank { type = 3; payload = codes "OK"; value = codes "OK" }, none)
read-write_example =
    read-write 3 (codes "OK") (codes "next") 512 blank (λ e. absurd (omega arith)) (omega arith)
      (omega arith)

decode-done_example :
    (r : Message × Decoded) × (decode (put32 12 ++ (2 ∷ replicate 11 255)) 1000 blank ≡ done r)
decode-done_example =
    decode-done (put32 12 ++ (2 ∷ replicate 11 255)) 1000 blank (omega arith) (omega arith)

unmarshal-panics_example :
    (unmarshal (put32 12 ++ (2 ∷ replicate 11 255)) ≡ panics)
    ↔ IsOverlong (put32 12 ++ (2 ∷ replicate 11 255))
unmarshal-panics_example = unmarshal-panics (put32 12 ++ (2 ∷ replicate 11 255))

-- A client that has not shown the password of its server.
abbrev guarded : Config
guarded = record {
  require_pass = some (codes "hash");
  has_policy = false;
  has_oauth = false;
  max_msg_size = 1000;
}

abbrev stranger : World ℕ
stranger = record {
  conn = record {
    authenticated = false;
    session = none;
    remote = codes "10.0.0.9";
    auth_fails = 0;
    auth_pending = false;
    close_after_reply = false;
  };
  desk = record { policy = none; log = new_log; jobs = [] };
  role_counts = λ i. 0;
  app = 0;
  sent = [];
  closes = false;
}

-- The handlers count the frames; one of them refuses all that may not run.
abbrev counting : Handler ℕ
counting s m = (s + 1, some (some (codes "PONG"), 1))

abbrev refusing : Handler ℕ
refusing s m = if may_run guarded false none m then counting s m else (s, none)

on_traffic-Agree_example :
    on_traffic guarded counting
      (λ i. true)
      (λ i. true)
      (λ i. 7)
      stranger
      (put32 1 ++ (0 ∷ marshal request))
    ≡ on_traffic guarded refusing
        (λ i. true)
        (λ i. true)
        (λ i. 7)
        stranger
        (put32 1 ++ (0 ∷ marshal request))
on_traffic-Agree_example =
    on_traffic-Agree guarded counting refusing (λ i. true) (λ i. true) (λ i. 7) stranger
      (put32 1 ++ (0 ∷ marshal request)) (λ s m h. rw h refl)
