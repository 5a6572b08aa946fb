-- ===== src/Capture/Proxy/Complete.antt =====
-- internal/capture/proxy.go: that `startup` gets to its end.
use tenantguard.Base.{
  Bool, List, Option, [], ap, append_assoc, arith, drop, drop-append_self, false, if◌then◌else◌,
  length, length-append, ltb, map, none, refl, some, subst, suc, take, take-append_self, true, zero,
  ℕ, ◌++◌, ◌+◌, ◌-◌, ◌<◌, ◌||◌, ◌∙◌, ◌∷◌, ◌≡◌, ◌≤◌,
}
use tenantguard.Base.Bytes.{Bytes}
use tenantguard.Capture.Proxy.{Started, is_encryption_request, started, startup, take_packet}
use tenantguard.Capture.Proxy.Startup.{AllRequests, IsPacket, joined}
use tenantguard.Capture.Session.Queue.{asks}
use tenantguard.Capture.Wire.{be32, u32}

-- The fields of a packet that is written out.
packet_fields :
    (a b x d : ℕ) (body : Bytes) (len : ℕ) (rest : Bytes)
    → u32 (a ∷ b ∷ x ∷ d ∷ body) ≡ some (len, rest)
    → (be32 a b x d ≡ len) × (body ≡ rest)
unfolding u32
packet_fields a b x d body len rest e = (ap (λ o. (fields o).0) e, ap (λ o. (fields o).1) e)
  where
    fields : Option (ℕ × Bytes) → ℕ × Bytes
    fields none = (0, [])
    fields (some f) = f

module _ (again : Bytes → Bytes × Started) (k : ℕ) where
  written_packet :
      (encryption : Bool) (a b x d : ℕ) (body rest : Bytes)
      → (length body + 4 ≡ be32 a b x d)
      → 8 ≤ be32 a b x d
      → be32 a b x d ≤ 1048576
      → is_encryption_request (be32 a b x d) body ≡ encryption
      → take_packet
          (λ i. true)
          true
          k
          again
          (a ∷ b ∷ x ∷ d ∷ (body ++ rest))
          (some (be32 a b x d, body ++ rest))
        ≡ (if encryption
            then (b'N' ∷ (again rest).0, (again rest).1)
            else ([], started (a ∷ b ∷ x ∷ d ∷ body) rest))
  written_packet encryption a b x d body rest whole lo hi asks =
      let len = be32 a b x d in
      let n : len - 4 ≡ length body = omega (arith, whole) in
      let t : take (len - 4) (body ++ rest) ≡ body = rw n (take-append_self body rest) in
      let r : drop (len - 4) (body ++ rest) ≡ rest = rw n (drop-append_self body rest) in
      let bounds : (ltb len 8 || ltb 1048576 len) ≡ false = ground (arith, lo, hi) in
      let enough : ltb (length (body ++ rest)) (len - 4) ≡ false =
        rw (length-append body rest) (ground (arith, whole)) in
      rw (bounds, enough, t, r, asks) (elim encryption [ true ↦ refl | false ↦ refl ])

  read_packet :
      (encryption : Bool) (p rest : Bytes)
      → IsPacket encryption p
      → take_packet (λ i. true) true k again (p ++ rest) (u32 (p ++ rest))
        ≡ (if encryption then (b'N' ∷ (again rest).0, (again rest).1) else ([], started p rest))
  unfolding u32
  read_packet encryption [] rest h = let e = h.field in cc
  read_packet encryption (a ∷ []) rest h = let e = h.field in cc
  read_packet encryption (a ∷ b ∷ []) rest h = let e = h.field in cc
  read_packet encryption (a ∷ b ∷ x ∷ []) rest h = let e = h.field in cc
  read_packet encryption (a ∷ b ∷ x ∷ d ∷ body) rest h =
      let (len, inside) = packet_fields a b x d body h.len h.body h.field in
      let whole = h.whole in
      let lo = h.at_least in
      let hi = h.at_most in
      written_packet encryption a b x d body rest (omega (arith, whole, len))
        (omega (arith, lo, len)) (omega (arith, hi, len)) (rw (len, inside) h.asks)

-- Whatever requests for encryption a client sends first, where all that is written is taken and there is
-- a turn more than there are bytes, each is answered by one `N`, the packet is sent to the server, and
-- what follows is left for the loops.
pub startup-completes :
    (requests : List Bytes) (packet rest : Bytes) (n k : ℕ)
    → AllRequests requests
    → IsPacket false packet
    → length (joined requests ++ (packet ++ rest)) < n
    → startup (λ i. true) true n k (joined requests ++ (packet ++ rest))
      ≡ (map (λ p. b'N') requests, started packet rest)
unfolding startup joined
startup-completes requests packet rest zero k hs h fuel = ground arith
startup-completes [] packet rest (suc n) k hs h fuel =
    read_packet (λ c. startup (λ i. true) true n (k + 1) c) k false packet rest h
startup-completes (p ∷ ps) packet rest (suc n) k (hp, hs) h fuel =
    let later = joined ps ++ (packet ++ rest) in
    let least = hp.at_least in
    let whole = hp.whole in
    let split = append_assoc p (joined ps) (packet ++ rest) in
    let shorter : length later < n =
      let sum = length-append p later in
      omega (arith, least, whole, sum, subst (λ c. length c < suc n) split fuel) in
    let e = startup-completes ps packet rest n (k + 1) hs h shorter in
    rw split (read_packet (λ c. startup (λ i. true) true n (k + 1) c) k true p later hp)
    ∙ ap (λ x. (b'N' ∷ x.0, x.1)) e
