-- ===== src/Payload/Framing.antt =====
-- The length prefixes of operator/src/payload.rs, and the boundaries between two signed fields.
use mathlib.Core.List.{append-nil, append_assoc}
use onym_backup.Prelude.{
  ℕ, suc, ◌<◌, ◌^◌, ◌≡◌, refl, sym, ap, ◌∙◌, [], ◌∷◌, ◌++◌, map, Bytes, arith, length, text,
}
use onym_backup.Crypto.{Crypto}
use onym_backup.Payload.{Request, u32_be, append, upper, signing_bytes, context}

-- What fits the 32-bit prefix.
abbrev pub Fits : Bytes → Type 0
Fits b = length b < 2 ^ 32

u32_be_injective :
    (m n : ℕ) (x y : Bytes)
    → m < 2 ^ 32
    → n < 2 ^ 32
    → u32_be m ++ x ≡ u32_be n ++ y
    → (m ≡ n) × (x ≡ y)
unfolding u32_be
u32_be_injective m n x y hm hn e = ground arith

split_equal : (a b x y : Bytes) → length a ≡ length b → a ++ x ≡ b ++ y → (a ≡ b) × (x ≡ y)
split_equal [] [] x y l e = (refl, e)
split_equal [] (c ∷ b) x y l e = absurd (omega arith)
split_equal (c ∷ a) [] x y l e = absurd (omega arith)
split_equal (c ∷ a) (d ∷ b) x y l e = ground (arith, split_equal a b x y)

append_injective :
    (a b x y : Bytes) → Fits a → Fits b → append a ++ x ≡ append b ++ y → (a ≡ b) × (x ≡ y)
unfolding append
append_injective a b x y fa fb e =
    let step =
      u32_be_injective (length a) (length b) (a ++ x) (b ++ y) fa fb
        (sym (append_assoc (u32_be (length a)) a x) ∙ e ∙ append_assoc (u32_be (length b)) b y) in
    split_equal a b x y step.0 step.1

length-upper : (b : Bytes) → length (map upper b) ≡ length b
length-upper [] = refl
length-upper (c ∷ b) = ap suc (length-upper b)

context_fits : Fits context
unfolding text
context_fits = omega arith

pub record FitsAll (r : Request) : Type 0 where
  pub method : Fits r.method
  pub path : Fits r.path
  pub holder : Fits r.holder
  pub timestamp : Fits r.timestamp
  pub nonce : Fits r.nonce

-- What two requests with the same signed bytes have in common.
pub record SameSigned (x : Crypto) (r q : Request) : Type 0 where
  pub method : map upper r.method ≡ map upper q.method
  pub path : r.path ≡ q.path
  pub holder : r.holder ≡ q.holder
  pub timestamp : r.timestamp ≡ q.timestamp
  pub nonce : r.nonce ≡ q.nonce
  pub body : x.sha256 r.body ≡ x.sha256 q.body

-- If every field of both requests is shorter than 2^32 bytes and their signed bytes are equal, then
-- they agree in the upper-cased method, path, holder, timestamp and nonce, and in the digest of the
-- body: a signature over one cannot be read as a signature over the other with a moved boundary.
pub signing_bytes_injective :
    (x : Crypto) (r q : Request)
    → FitsAll r
    → FitsAll q
    → signing_bytes x r ≡ signing_bytes x q
    → SameSigned x r q
unfolding signing_bytes
signing_bytes_injective x r q f g e =
    let m = append_injective context context _ _ (context_fits) (context_fits) e in
    let p =
      append_injective (map upper r.method) (map upper q.method) _ _
        (omega (arith, f.method, length-upper r.method))
        (omega (arith, g.method, length-upper q.method)) m.1 in
    let h = append_injective r.path q.path _ _ f.path g.path p.1 in
    let t = append_injective r.holder q.holder _ _ f.holder g.holder h.1 in
    let n = append_injective r.timestamp q.timestamp _ _ f.timestamp g.timestamp t.1 in
    let b = append_injective r.nonce q.nonce _ _ f.nonce g.nonce n.1 in
    let d =
      append_injective (x.sha256 r.body) (x.sha256 q.body) [] []
        (omega (arith, x.length-sha256 r.body)) (omega (arith, x.length-sha256 q.body))
        (append-nil _ ∙ b.1 ∙ sym (append-nil _)) in
    record { method = p.0; path = h.0; holder = t.0; timestamp = n.0; nonce = b.0; body = d.0 }
