-- ===== src/Capture/Proxy/Startup.antt =====
-- internal/capture/proxy.go: what `startup` passes on.
use tenantguard.Base.{
  Bool, Bool-cases, List, [], ap, append_assoc, arith, drop, false, inl, inr, length, length-take,
  ltb, map, refl, some, subst, suc, sym, take, take-append-drop, true, zero, ℕ, ◌++◌, ◌+◌, ◌-◌,
  ◌||◌, ◌∙◌, ◌∷◌, ◌≡◌, ◌≤◌,
}
use tenantguard.Base.Bytes.{Bytes}
use tenantguard.Capture.Proxy.{
  Started, broken, is_encryption_request, started, startup, take_packet,
}
use tenantguard.Capture.Wire.{be32, u32}

unfoldable pub joined : List Bytes → Bytes
joined [] = []
joined (p ∷ ps) = p ++ joined ps

-- A packet whose length field is its length, of a size that is accepted; `encryption` tells whether it
-- asks for encryption.
pub record IsPacket (encryption : Bool) (p : Bytes) : Type 0 where
  pub len : ℕ
  pub body : Bytes
  pub field : u32 p ≡ some (len, body)
  pub whole : length p ≡ len
  pub at_least : 8 ≤ len
  pub at_most : len ≤ 1048576
  pub asks : is_encryption_request len body ≡ encryption

abbrev pub AllRequests : List Bytes → Type 0
AllRequests [] = Unit
AllRequests (p ∷ ps) = IsPacket true p × AllRequests ps

-- What the client sent is requests for encryption, each of which was answered by one refusal, then the
-- packet, then what is left.
pub record Relayed (c answers packet rest : Bytes) : Type 0 where
  pub requests : List Bytes
  pub requests_ask : AllRequests requests
  pub packet_asks : IsPacket false packet
  pub sent : c ≡ joined requests ++ (packet ++ rest)
  pub answered : answers ≡ map (λ p. b'N') requests

abbrev pub Passed : Bytes → Bytes × Started → Type 0
Passed c (answers, broken e) = Unit
Passed c (answers, started packet rest) = Relayed c answers packet rest

take-IsPacket :
    (encryption : Bool) (a b x d : ℕ) (after : Bytes)
    → let len = be32 a b x d in
      (ltb len 8 || ltb 1048576 len) ≡ false
      → ltb (length after) (len - 4) ≡ false
      → is_encryption_request len (take (len - 4) after) ≡ encryption
      → IsPacket encryption (a ∷ b ∷ x ∷ d ∷ take (len - 4) after)
unfolding u32
take-IsPacket encryption a b x d after bounds enough asks =
    let len = be32 a b x d in
    let fits : len - 4 ≤ length after = ground (arith, enough) in
    record {
      len = len;
      body = take (len - 4) after;
      field = refl;
      whole = rw (length-take (len - 4) after fits) (ground (arith, bounds));
      at_least = ground (arith, bounds);
      at_most = ground (arith, bounds);
      asks = asks;
    }

request-Passed :
    (p rest : Bytes) (x : Bytes × Started)
    → IsPacket true p
    → Passed rest x
    → Passed (p ++ rest) (b'N' ∷ x.0, x.1)
unfolding joined
request-Passed p rest (answers, broken e) h o = tt
request-Passed p rest (answers, started packet left) h o = record {
  requests = p ∷ o.requests;
  requests_ask = (h, o.requests_ask);
  packet_asks = o.packet_asks;
  sent = ap (λ s. p ++ s) o.sent ∙ sym (append_assoc p (joined o.requests) (packet ++ left));
  answered = ap (λ s. b'N' ∷ s) o.answered;
}

packet-Passed :
    (packet rest : Bytes)
    → IsPacket false packet
    → Passed (packet ++ rest) ([], started packet rest)
unfolding joined
packet-Passed packet rest h = record {
  requests = [];
  requests_ask = tt;
  packet_asks = h;
  sent = refl;
  answered = refl;
}

module _ (client_takes : ℕ → Bool) (server_takes : Bool) where
  take_packet-Passed :
      (k : ℕ) (again : Bytes → Bytes × Started) (a b x d : ℕ) (after : Bytes)
      → ((rest : Bytes) → Passed rest (again rest))
      → Passed (a ∷ b ∷ x ∷ d ∷ after) (
          take_packet client_takes server_takes k again
            (a ∷ b ∷ x ∷ d ∷ after)
            (some (be32 a b x d, after)))
  take_packet-Passed k again a b x d after ih =
      let len = be32 a b x d in
      let body = take (len - 4) after in
      let rest = drop (len - 4) after in
      let packet = a ∷ b ∷ x ∷ d ∷ body in
      let whole : packet ++ rest ≡ a ∷ b ∷ x ∷ d ∷ after =
        ap (λ s. a ∷ b ∷ x ∷ d ∷ s) (take-append-drop (len - 4) after) in
      elim (Bool-cases (ltb len 8 || ltb 1048576 len)) [
        | inl out ↦ rw out tt
        | inr bounds ↦ rw bounds (elim (Bool-cases (ltb (length after) (len - 4))) [
          | inl short ↦ rw short tt
          | inr enough ↦ rw enough (elim (Bool-cases (is_encryption_request len body)) [
            | inl asks ↦ rw asks (elim (Bool-cases (client_takes k)) [
              | inr lost ↦ rw lost tt
              | inl taken ↦ rw taken (
                  subst (λ c. Passed c (b'N' ∷ (again rest).0, (again rest).1)) whole
                    (request-Passed packet rest (again rest)
                      (take-IsPacket true a b x d after bounds enough asks) (ih rest)))
            ])
            | inr plain ↦ rw plain (elim (Bool-cases server_takes) [
              | inr lost ↦ rw lost tt
              | inl taken ↦ rw taken (
                  subst (λ c. Passed c ([], started packet rest)) whole
                    (packet-Passed packet rest
                      (take-IsPacket false a b x d after bounds enough plain)))
            ])
          ])
        ])
      ]

  -- Where the startup of a connection succeeds, the client sent requests for encryption, each of which
  -- was answered by one `N`, and then a packet that is none, which the server was sent as it is; what
  -- the client sends next is left for the loops.
  pub startup-Passed : (n k : ℕ) (c : Bytes) → Passed c (startup client_takes server_takes n k c)
  unfolding startup u32
  startup-Passed zero k c = tt
  startup-Passed (suc n) k [] = tt
  startup-Passed (suc n) k (a ∷ []) = tt
  startup-Passed (suc n) k (a ∷ b ∷ []) = tt
  startup-Passed (suc n) k (a ∷ b ∷ x ∷ []) = tt
  startup-Passed (suc n) k (a ∷ b ∷ x ∷ d ∷ after) =
      take_packet-Passed k (λ rest. startup client_takes server_takes n (k + 1) rest) a b x d after
        (startup-Passed n (k + 1))
