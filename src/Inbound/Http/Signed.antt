-- ===== src/Inbound/Http/Signed.antt =====
-- What a signature of a call to the backend covers.
use stonesuite_notify.Base.{ℕ, ◌≡◌, ◌≢◌, refl, sym, ap, String, List, [], ◌∷◌, ◌++◌, All}
use stonesuite_notify.Base.Utf8.{encode}
use stonesuite_notify.Inbound.Http.Backend.{signed_text}

head_or : List ℕ → ℕ
head_or [] = 0
head_or (b ∷ l) = b

tail_of : List ℕ → List ℕ
tail_of [] = []
tail_of (b ∷ l) = l

-- Two texts that end at the first separator.
cut_injective :
    (sep : ℕ) (p p' q q' : List ℕ)
    → All (λ b. b ≢ sep) p
    → All (λ b. b ≢ sep) p'
    → p ++ sep ∷ q ≡ p' ++ sep ∷ q'
    → (p ≡ p') × (q ≡ q')
unfolding head_or tail_of
cut_injective sep [] [] q q' h h' e = (refl, ap tail_of e)
cut_injective sep [] (b ∷ p') q q' h h' e = absurd (h'.0 (sym (ap head_or e)))
cut_injective sep (b ∷ p) [] q q' h h' e = absurd (h.0 (ap head_or e))
cut_injective sep (b ∷ p) (c ∷ p') q q' h h' e =
    let (same, rest) = cut_injective sep p p' q q' h.1 h'.1 (ap tail_of e) in
    (rw (ap head_or e, same) refl, rest)

-- Two calls that are signed alike are the same call: no other method, path, time or body has the
-- same signed text, if the methods have no space and the paths and times no line feed. So what was
-- captured of one route of the backend is no signature for another.
pub signed_text-injective :
    (method method' path path' ts ts' : String) (body body' : List ℕ)
    → All (λ b. b ≢ 0x20) (encode method)
    → All (λ b. b ≢ 0x20) (encode method')
    → All (λ b. b ≢ 0x0a) (encode path)
    → All (λ b. b ≢ 0x0a) (encode path')
    → All (λ b. b ≢ 0x0a) (encode ts)
    → All (λ b. b ≢ 0x0a) (encode ts')
    → signed_text method path ts body ≡ signed_text method' path' ts' body'
    → (encode method ≡ encode method')
      × (encode path ≡ encode path')
      × (encode ts ≡ encode ts')
      × (body ≡ body')
unfolding signed_text
signed_text-injective method method' path path' ts ts' body body' m m' p p' t t' e =
    let third = encode ts ++ 0x0a ∷ body in
    let third' = encode ts' ++ 0x0a ∷ body' in
    let second = encode path ++ 0x0a ∷ third in
    let second' = encode path' ++ 0x0a ∷ third' in
    let (same_method, rest) =
      cut_injective 0x20 (encode method) (encode method') second second' m m' e in
    let (same_path, rest') =
      cut_injective 0x0a (encode path) (encode path') third third' p p' rest in
    let (same_ts, same_body) = cut_injective 0x0a (encode ts) (encode ts') body body' t t' rest' in
    (same_method, same_path, same_ts, same_body)
