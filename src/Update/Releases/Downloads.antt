-- ===== src/Update/Releases/Downloads.antt =====
-- What `download` of src/update.rs returns.
use rcodex.Common.{
  ℕ, ◌+◌, ◌≤◌, ◌≡◌, refl, sym, ap, ◌∙◌, ◌↔◌, Bool, true, false, Option, List, [], ◌∷◌, ◌++◌, arith,
  ltb, if◌then◌else◌, length, length-append, Result, ok, err, Error, ◌>>=◌, ◌>>◌, bail_if,
  >>=-eq-ok, bail_if-eq-ok, Text, Bytes,
}
use mathlib.Core.List.{append-nil, append_assoc}
use rcodex.Update.Releases.{Repository, exceeds, collect, download}

-- Every chunk came, and the body is the chunks in their order.
abbrev pub IsBody : List (Result Error Bytes) → Bytes → Type 0
IsBody [] body = body ≡ []
IsBody (err e ∷ rest) body = ⊥
IsBody (ok chunk ∷ rest) body = (more : Bytes) × IsBody rest more × (body ≡ chunk ++ more)

-- An answer that announces no more than the limit, and whose body is not longer.
abbrev pub IsDownload : Repository → Text → ℕ → Bytes → Type 0
IsDownload r url limit body =
    (announced : Option ℕ) × (chunks : List (Result Error Bytes)) × (r.get url
      ≡ ok (announced, chunks))
    × (exceeds limit announced ≡ false)
    × IsBody chunks body
    × (length body ≤ limit)

unless-eq-ok :
    {A : Type 0} (b : Bool) (e : Error) (o : Result Error A) {a : A}
    → (if b then err e else o) ≡ ok a
    → (b ≡ false) × (o ≡ ok a)
unless-eq-ok true e o h = cc
unless-eq-ok false e o h = (refl, h)

collect_iff :
    (limit : ℕ) (bytes : Bytes) (chunks : List (Result Error Bytes)) (result : Bytes)
    → length bytes ≤ limit
    → (collect limit bytes chunks ≡ ok result)
      ↔ ((body : Bytes) × IsBody chunks body × (result ≡ bytes ++ body) × (length result ≤ limit))
unfolding collect
collect_iff limit bytes [] result small = (
  λ e.
      let same : result ≡ bytes = cc in
      ([], refl, same ∙ sym (append-nil bytes), rw (sym same) at small),
  λ (body, empty, same, bounded).
      ap ok (sym (same ∙ ap (λ b. bytes ++ b) empty ∙ append-nil bytes)),
)
collect_iff limit bytes (err e ∷ rest) result small = (λ e. cc, λ (body, bad, _, _). elim bad [ ])
collect_iff limit bytes (ok chunk ∷ rest) result small =
    let size = length-append bytes chunk in
    (
      λ e.
          let (fits, e') =
            unless-eq-ok (ltb limit (length bytes + length chunk))
              "update download exceeds size limit" (collect limit (bytes ++ chunk) rest) e in
          let (body, whole, same, bounded) =
            (collect_iff limit (bytes ++ chunk) rest result (ground (arith, fits, size))).0 e' in
          (chunk ++ body, (body, whole, refl), same ∙ append_assoc bytes chunk body, bounded),
      λ (body, (more, whole, split), same, bounded).
          let same' : result ≡ (bytes ++ chunk) ++ more =
            same ∙ ap (λ b. bytes ++ b) split ∙ sym (append_assoc bytes chunk more) in
          let total = ap length same' ∙ length-append (bytes ++ chunk) more in
          let fits : ltb limit (length bytes + length chunk) ≡ false =
            ground (arith, total, size, bounded) in
          ap
            (λ b.
              if b
              then err "update download exceeds size limit"
              else collect limit (bytes ++ chunk) rest)
            fits
          ∙ (collect_iff limit (bytes ++ chunk) rest result (ground (arith, fits, size))).1
              (more, whole, same', bounded),
    )

-- The steps of a download after the answer.
abbrev after_answer : ℕ → Option ℕ → List (Result Error Bytes) → Result Error Bytes
after_answer limit announced chunks =
    bail_if (exceeds limit announced) "update download exceeds size limit"
    >> collect limit [] chunks

-- A download returns exactly the chunks of the answer, all of them and in their order, if none of them
-- failed and neither the announced length nor that of the chunks exceeds the limit.
pub download-IsDownload :
    (r : Repository) (url : Text) (limit : ℕ) (body : Bytes)
    → (download r url limit ≡ ok body) ↔ IsDownload r url limit body
unfolding download
download-IsDownload r url limit body = (
  λ e.
      let ((announced, chunks), answered, e1) =
        >>=-eq-ok (r.get url) (λ (announced, chunks). after_answer limit announced chunks) e in
      let (u, fits, e2) =
        >>=-eq-ok (bail_if (exceeds limit announced) "update download exceeds size limit")
          (λ _. collect limit [] chunks) e1 in
      let (body', whole, same, bounded) = (collect_iff limit [] chunks body (ground arith)).0 e2 in
      (
        announced,
        chunks,
        answered,
        bail_if-eq-ok (exceeds limit announced) "update download exceeds size limit" fits,
        rw (sym same) at whole,
        bounded,
      ),
  λ (announced, chunks, answered, fits, whole, bounded).
      ap
        (λ (o : Result Error (Option ℕ × List (Result Error Bytes))).
          o >>= λ (a, c). after_answer limit a c)
        answered
      ∙ ap (λ b. bail_if b "update download exceeds size limit" >> collect limit [] chunks) fits
      ∙ (collect_iff limit [] chunks body (ground arith)).1 (body, whole, refl, bounded),
)
