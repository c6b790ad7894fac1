-- ===== src/Edge/Http3/Responses/Limits.antt =====
-- internal/edge/http3.go, headLimit: how much of a response can come before its head has ended.
use coen.Base.{ℕ, ◌+◌, ◌≤◌, ◌≡◌, ◌↔◌, refl, sym, ◌∙◌, false, none, some, arith}
use coen.Edge.Http3.Responses.{
  HeadLimit, head_limit_bytes, new_head_limit, asks_for, limit_after, limit_done, limit_reset,
}

-- `t` bytes have come since the limit was last started over. A read below brings no more than is asked.
pub data Reads : ℕ → HeadLimit → Type 0 where
  starts : Reads 0 new_head_limit
  brings :
      {t : ℕ} {h : HeadLimit} (len m n : ℕ)
      → Reads t h
      → asks_for h len ≡ some m
      → n ≤ m
      → Reads (t + n) (limit_after h n)
  resets : {t : ℕ} {h : HeadLimit} → Reads t h → Reads 0 (limit_reset h)
  frees : {t : ℕ} {h : HeadLimit} → Reads t h → Reads t (limit_done h)

asks_for-le :
    (h : HeadLimit) (len m n : ℕ) → h.freed ≡ false → asks_for h len ≡ some m → n ≤ m → n ≤ h.left
unfolding asks_for
asks_for-le h len m n f e le = ground (arith, f, e, le)

brings-left :
    (t n : ℕ) (h : HeadLimit)
    → h.freed ≡ false
    → n ≤ h.left
    → t + h.left ≡ head_limit_bytes
    → (t + n) + (limit_after h n).left ≡ head_limit_bytes
unfolding limit_after
brings-left t n h f le e = ground (arith, f, le, e)

limit_after-freed : (h : HeadLimit) (n : ℕ) → (limit_after h n).freed ≡ h.freed
unfolding limit_after
limit_after-freed h n = ground arith

Reads-left : {t : ℕ} {h : HeadLimit} → Reads t h → h.freed ≡ false → t + h.left ≡ head_limit_bytes
unfolding limit_reset limit_done
Reads-left starts f = refl
Reads-left (brings {t} {h} len m n r a le) f =
    let f' : h.freed ≡ false = sym (limit_after-freed h n) ∙ f in
    brings-left t n h f' (asks_for-le h len m n f' a le) (Reads-left r f')
Reads-left (resets r) f = refl
Reads-left (frees r) f = absurd (cc (f))

refuses_iff :
    (t len : ℕ) (h : HeadLimit)
    → h.freed ≡ false
    → t + h.left ≡ head_limit_bytes
    → (asks_for h len ≡ none) ↔ (t ≡ head_limit_bytes)
unfolding asks_for
refuses_iff t len h f e = (λ a. ground (arith, f, e, a), λ q. ground (arith, f, e, q))

-- Until the head has been read: no more than 96 KiB come since the limit was started over, which an
-- interim response does; and a read is refused, whatever its buffer, exactly once that many have come.
pub Reads-bounded :
    {t : ℕ} {h : HeadLimit} (len : ℕ)
    → Reads t h
    → h.freed ≡ false
    → (t ≤ 98304) × ((asks_for h len ≡ none) ↔ (t ≡ 98304))
Reads-bounded {t} {h} len r f =
    let e = Reads-left r f in (omega (arith, e), refuses_iff t len h f e)
