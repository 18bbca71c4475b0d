-- ===== src/Decide/Body/Evidence.antt =====
-- What `build_body` returns.
use vllm_production_stack_cu.Base.{
  String, ◌≡◌, refl, Bool, true, false, Option, List, [], ◌∷◌, ◌++◌, string_eq, Bool-cases, inl,
  inr, arith, ◌∙◌, sym, ap, subst,
}
use vllm_production_stack_cu.Base.Dict.{mem, mem-append}
use vllm_production_stack_cu.Base.Json.{Value, Fields}
use vllm_production_stack_cu.Decide.Validate.{ok, validate}
use vllm_production_stack_cu.Decide.Results.{Returns, bind-Returns, Returns-map}
use vllm_production_stack_cu.Decide.Body.Sources.{AtMostOne, read_file-Returns, body_of-Returns}
use vllm_production_stack_cu.Decide.Results.{validate-Returns}
use vllm_production_stack_cu.Decide.Body.{
  Args, File, contents, Entry, paths, Inputs, read_file, add_evidence, body_of, build_body,
}

abbrev pub IsDistinct : List String → Type 0
IsDistinct [] = Unit
IsDistinct (x ∷ xs) = (mem x xs ≡ false) × IsDistinct xs

IsDistinct-snoc :
    (x : String) (xs : List String) → mem x xs ≡ false → IsDistinct xs → IsDistinct (xs ++ (x ∷ []))
unfolding mem
IsDistinct-snoc x [] e d = (refl, tt)
IsDistinct-snoc x (y ∷ ys) e (fresh, d) = (
  mem-append y ys (x ∷ [])
      ∙ ground (arith, e, fresh, string_eq.same_iff x y, string_eq.same_iff y x),
  IsDistinct-snoc x ys (ground (arith, e)) d,
)

paths-append : (es fs : List Entry) → paths (es ++ fs) ≡ paths es ++ paths fs
unfolding paths
paths-append [] fs = refl
paths-append (e ∷ es) fs = ap (λ ps. e.path ∷ ps) (paths-append es fs)

added :
    (x : String) (es : List Entry) (entry : Entry)
    → mem x (paths es) ≡ true
    → mem x (paths (es ++ (entry ∷ []))) ≡ true
unfolding paths
added x es entry m =
    rw (paths-append es (entry ∷ [])) (rw (mem-append x (paths es) (entry.path ∷ [])) (rw m refl))

added_last : (es : List Entry) (entry : Entry) → mem entry.path (paths (es ++ (entry ∷ []))) ≡ true
unfolding paths mem
added_last [] entry = ground (arith, string_eq.same_iff entry.path entry.path)
added_last (e ∷ es) entry = ground (arith, added_last es entry)

added-IsDistinct :
    (es : List Entry) (entry : Entry)
    → mem entry.path (paths es) ≡ false
    → IsDistinct (paths es)
    → IsDistinct (paths (es ++ (entry ∷ [])))
unfolding paths
added-IsDistinct es entry fresh d =
    subst IsDistinct (sym (paths-append es (entry ∷ [])))
      (IsDistinct-snoc entry.path (paths es) fresh d)

AtMostOne-IsDistinct : (es : List Entry) → AtMostOne es → IsDistinct (paths es)
unfolding paths mem
AtMostOne-IsDistinct [] o = tt
AtMostOne-IsDistinct (e ∷ []) o = (refl, tt)
AtMostOne-IsDistinct (e ∷ f ∷ es) o = absurd o

module _ (io : Inputs) where
  open io use {read_bytes, loads, stdin}

  -- The file at a path was read, and the evidence has its path.
  abbrev pub IsBound : List Entry → String → Type 0
  IsBound evidence p =
      (f : File) × (read_bytes p ≡ contents f) × (mem f.path (paths evidence) ≡ true)

  abbrev pub AllBound : List Entry → List String → Type 0
  AllBound evidence [] = Unit
  AllBound evidence (p ∷ ps) = IsBound evidence p × AllBound evidence ps

  -- The paths are distinct, the given ones are among them, and so are those of the files.
  abbrev pub Extends : List String → List Entry → List Entry → Type 0
  Extends ps es out =
      IsDistinct (paths out)
      × ((x : String) → mem x (paths es) ≡ true → mem x (paths out) ≡ true)
      × AllBound out ps

  add_evidence-Extends :
      (ps : List String) (es : List Entry)
      → IsDistinct (paths es)
      → Returns (Extends ps es) (add_evidence io ps es)
  unfolding add_evidence
  add_evidence-Extends [] es d = (d, λ x m. m, tt)
  add_evidence-Extends (p ∷ ps) es d =
      bind-Returns
        (λ (text, entry). (f : File) × (read_bytes p ≡ contents f) × (entry.path ≡ f.path))
        (Extends (p ∷ ps) es) (read_file io p "evidence_file") _
        (read_file-Returns io p "evidence_file")
        (λ (text, entry) (f, r, same) e. elim (Bool-cases (mem entry.path (paths es))) [
          | inl old ↦ rw old (
              Returns-map (Extends ps es) (Extends (p ∷ ps) es) (add_evidence io ps es)
                (λ out (distinct, kept, bound). (
                  distinct,
                  kept,
                  ((f, r, kept f.path (subst (λ x. mem x (paths es) ≡ true) same old)), bound),
                ))
                (add_evidence-Extends ps es d))
          | inr fresh ↦ rw fresh (
              Returns-map (Extends ps (es ++ (entry ∷ []))) (Extends (p ∷ ps) es)
                (add_evidence io ps (es ++ (entry ∷ [])))
                (λ out (distinct, kept, bound). (
                  distinct,
                  λ x m. kept x (added x es entry m),
                  (
                    (
                      f,
                      r,
                      kept f.path (
                          subst (λ x. mem x (paths (es ++ (entry ∷ []))) ≡ true) same
                            (added_last es entry)),
                    ),
                    bound,
                  ),
                ))
                (add_evidence-Extends ps (es ++ (entry ∷ [])) (added-IsDistinct es entry fresh d)))
        ])

  module _ (is_finite : Value → Option Bool) (blank : String → Bool) where
    -- What a request that was built is: it would be accepted again, and the evidence is one entry for
    -- each path, with the path of every evidence file among them.
    abbrev pub IsBuilt : Args → Fields × List Entry → Type 0
    IsBuilt args (body, evidence) =
        (validate is_finite blank (Value.obj body) ≡ ok body)
        × IsDistinct (paths evidence)
        × AllBound evidence args.evidence_file

    pub build_body-IsBuilt :
        (args : Args) → Returns (IsBuilt args) (build_body io is_finite blank args)
    unfolding build_body
    build_body-IsBuilt args =
        bind-Returns (λ (v, es). AtMostOne es) (IsBuilt args) (body_of io args) _
          (body_of-Returns io args)
          (λ (v, first) few e.
            bind-Returns (λ body. validate is_finite blank (Value.obj body) ≡ ok body)
              (IsBuilt args) (validate is_finite blank v) _ (validate-Returns is_finite blank v)
              (λ body valid e'.
                bind-Returns (Extends args.evidence_file first) (IsBuilt args)
                  (add_evidence io args.evidence_file first) _
                  (add_evidence-Extends args.evidence_file first (AtMostOne-IsDistinct first few))
                  (λ evidence (distinct, kept, bound) e''. (valid, distinct, bound))))
