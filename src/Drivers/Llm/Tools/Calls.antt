-- ===== src/Drivers/Llm/Tools/Calls.antt =====
-- The call that stands in a response is found whatever stands around it.
use bls_runtime.Prelude.{
  ℕ, suc, ◌+◌, ◌-◌, ◌≡◌, refl, ap, sym, ◌∙◌, true, ◌&&◌, none, some, [], ◌∷◌, ◌++◌, append_assoc,
  Bytes, ltb, ◌==◌, length, take, arith, length-append, take-length, drop-length,
}
use bls_runtime.Prelude.Split.{Without}
use bls_runtime.Drivers.Llm.Tools.{
  Services, ToolsMap, find, rfind, fn_content, process_function_call,
}

find_lem :
    (c : ℕ) (front s : Bytes) → Without c front → find c (front ++ (c ∷ s)) ≡ some (length front)
unfolding find
find_lem c [] s h = let same : (c == c) ≡ true = ground arith in rw same refl
find_lem c (d ∷ front) s (other, h) = rw (other, find_lem c front s h, find) refl

rfind-Without : (c : ℕ) (s : Bytes) → Without c s → rfind c s ≡ none
unfolding rfind
rfind-Without c [] h = refl
rfind-Without c (d ∷ s) (other, h) = rw (rfind-Without c s h, other, rfind) refl

rfind_lem :
    (c : ℕ) (front s : Bytes) → Without c s → rfind c (front ++ (c ∷ s)) ≡ some (length front)
unfolding rfind
rfind_lem c [] s h =
    let same : (c == c) ≡ true = ground arith in rw (rfind-Without c s h, same, rfind) refl
rfind_lem c (d ∷ front) s h = rw (rfind_lem c front s h, rfind) refl

-- Two braces with a text between them.
abbrev pub braced : Bytes → Bytes
braced body = b'{' ∷ (body ++ (b'}' ∷ []))

fn_content-braced :
    (front body rest : Bytes)
    → Without b'{' front
    → Without b'}' rest
    → fn_content (front ++ (b'{' ∷ (body ++ (b'}' ∷ rest)))) ≡ braced body
unfolding fn_content
fn_content-braced front body rest before behind =
    let inner : Bytes = b'{' ∷ (body ++ (b'}' ∷ rest)) in
    let content : Bytes = front ++ inner in
    let start : find b'{' content ≡ some (length front) = find_lem b'{' front _ before in
    let end_at : rfind b'}' content ≡ some (length (front ++ (b'{' ∷ body))) =
      ap (rfind b'}') (sym (append_assoc front (b'{' ∷ body) (b'}' ∷ rest)))
      ∙ rfind_lem b'}' (front ++ (b'{' ∷ body)) rest behind in
    let last : length (front ++ (b'{' ∷ body)) ≡ length front + suc (length body) =
      length-append front (b'{' ∷ body) in
    let size : length content ≡ length front + suc (length body + suc (length rest)) =
      omega (arith, length-append front inner, length-append body (b'}' ∷ rest)) in
    let ordered : (ltb (length front) (length (front ++ (b'{' ∷ body)))
          && ltb (length (front ++ (b'{' ∷ body))) (length content))
        ≡ true =
      ground (arith, last, size) in
    let count : length (front ++ (b'{' ∷ body)) + 1 - length front ≡ length (braced body) =
      omega (arith, last, length-append body (b'}' ∷ [])) in
    let cut : take (length (braced body)) inner ≡ braced body =
      ap (λ t. take (length (braced body)) (b'{' ∷ t)) (sym (append_assoc body (b'}' ∷ []) rest))
      ∙ take-length (braced body) rest in
    rw (start, end_at, ordered, count, drop-length front inner) cut

module _ (services : Services) where
  -- A response is read for a call by what stands between its first opening and its last closing
  -- brace, these included: what the model says in front of the one and behind the other, the tags
  -- that the prompt asks for among it, does not matter.
  pub process_function_call-braced :
      (front body rest : Bytes) (tools : ToolsMap services)
      → Without b'{' front
      → Without b'}' rest
      → process_function_call services (front ++ (b'{' ∷ (body ++ (b'}' ∷ rest)))) tools
        ≡ process_function_call services (braced body) tools
  unfolding process_function_call
  process_function_call-braced front body rest tools before behind =
      let outer = fn_content-braced front body rest before behind in
      let alone = fn_content-braced [] body [] tt tt in
      rw (outer, alone, process_function_call) refl
