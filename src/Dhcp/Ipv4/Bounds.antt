-- ===== src/Dhcp/Ipv4/Bounds.antt =====
-- `Ipv4Addr`: an address that a text gives has 32 bits.
use rack_director.Prelude.{
  ℕ, ◌+◌, ◌*◌, ◌^◌, ◌<◌, ◌≡◌, Option, none, some, [], ◌∷◌, Bytes, refl, arith,
}
use rack_director.Dhcp.Ipv4.{octet, dot, the_end, parse_ipv4, ◌>>=◌}

octet-lt : (s : Bytes) (v : ℕ) (r : Bytes) → octet s ≡ some (v, r) → v < 256
unfolding octet
octet-lt s v r h = ground arith

-- A chain that gives a value had one to pass on.
chain :
    {A B : Type 0} (m : Option A) (f : A → Option B) (b : B)
    → (m >>= f) ≡ some b
    → (a : A) × (m ≡ some a) × (f a ≡ some b)
chain none f b h = cc
chain (some a) f b h = (a, refl, h)

the_end-some : (a b : ℕ) (s : Bytes) → the_end a s ≡ some b → a ≡ b
the_end-some a b [] h = cc
the_end-some a b (x ∷ s) h = cc

pub parse_ipv4-lt : (s : Bytes) (x : ℕ) → parse_ipv4 s ≡ some x → x < 2 ^ 32
unfolding parse_ipv4
parse_ipv4-lt s x h =
    let ((a, s1), p1, h1) = chain (octet s) _ x h in
    let (s2, _, h2) = chain (dot s1) _ x h1 in
    let ((b, s3), p3, h3) = chain (octet s2) _ x h2 in
    let (s4, _, h4) = chain (dot s3) _ x h3 in
    let ((c, s5), p5, h5) = chain (octet s4) _ x h4 in
    let (s6, _, h6) = chain (dot s5) _ x h5 in
    let ((d, s7), p7, h7) = chain (octet s6) _ x h6 in
    omega (
      arith,
      octet-lt s a s1 p1,
      octet-lt s2 b s3 p3,
      octet-lt s4 c s5 p5,
      octet-lt s6 d s7 p7,
      the_end-some (((a * 256 + b) * 256 + c) * 256 + d) x s7 h7,
    )
