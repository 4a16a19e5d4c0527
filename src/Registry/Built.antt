-- ===== src/Registry/Built.antt =====
-- What chain is built of the entries of a configuration.
use mathlib.Core.List.{append_assoc, append-nil}
use shield_agent.Prelude.{
  ◌≡◌, refl, ap, sym, ◌∙◌, inl, inr, true, false, List, [], ◌∷◌, ◌++◌, keep, arith, Bool-cases,
}
use shield_agent.Prelude.Result.{Result, ok, err, Result-cases}
use shield_agent.Config.{MiddlewareEntry}
use shield_agent.Registry.{
  Values, Dependencies, BuiltMiddleware, BuildError, CreateError, create_middleware, has_closer,
  is_enabled, build_from, build_chain,
}

module _ {V : Type 0} (vs : Values V) (deps : Dependencies) where
  -- The entries that are on make these items, one each and in order.
  pub data Makes : List (MiddlewareEntry V) → List BuiltMiddleware → Type 0 where
    done : Makes [] []
    off :
        {e : MiddlewareEntry V} {es : List (MiddlewareEntry V)} {items : List BuiltMiddleware}
        → is_enabled e ≡ false
        → Makes es items
        → Makes (e ∷ es) items
    on :
        {e : MiddlewareEntry V} {es : List (MiddlewareEntry V)} {item : BuiltMiddleware}
        {items : List BuiltMiddleware}
        → is_enabled e ≡ true
        → create_middleware vs deps e ≡ ok item
        → Makes es items
        → Makes (e ∷ es) (item ∷ items)

  -- The first entry that is on and fails, what was made before it, and what is closed
  pub record FailsAt (start : List BuiltMiddleware) (entries : List (MiddlewareEntry V))
      (failure : BuildError) : Type 0 where
    pub before : List (MiddlewareEntry V)
    pub entry : MiddlewareEntry V
    pub behind : List (MiddlewareEntry V)
    pub made : List BuiltMiddleware
    pub splits : entries ≡ before ++ entry ∷ behind
    pub makes : Makes before made
    pub is_on : is_enabled entry ≡ true
    pub fails : create_middleware vs deps entry ≡ err failure.error
    pub names : failure.name ≡ entry.name
    pub closes : failure.closed ≡ keep has_closer (start ++ made)

  -- What the loop gives, from items that were made on
  abbrev pub Outcome :
      List BuiltMiddleware
      → List (MiddlewareEntry V)
      → Result BuildError (List BuiltMiddleware)
      → Type 0
  Outcome start es (ok items) =
      (made : List BuiltMiddleware) × (items ≡ start ++ made) × Makes es made
  Outcome start es (err e) = FailsAt start es e

  build_from-eq-skip :
      (start : List BuiltMiddleware) (e : MiddlewareEntry V) (es : List (MiddlewareEntry V))
      → is_enabled e ≡ false
      → build_from vs deps start (e ∷ es) ≡ build_from vs deps start es
  unfolding build_from
  build_from-eq-skip start e es h = ground arith

  build_from-eq-fail :
      (start : List BuiltMiddleware) (e : MiddlewareEntry V) (es : List (MiddlewareEntry V))
      (error : CreateError)
      → is_enabled e ≡ true
      → create_middleware vs deps e ≡ err error
      → build_from vs deps start (e ∷ es)
        ≡ err (record { name = e.name; error = error; closed = keep has_closer start })
  unfolding build_from
  build_from-eq-fail start e es error h f = ground arith

  build_from-eq-take :
      (start : List BuiltMiddleware) (e : MiddlewareEntry V) (es : List (MiddlewareEntry V))
      (item : BuiltMiddleware)
      → is_enabled e ≡ true
      → create_middleware vs deps e ≡ ok item
      → build_from vs deps start (e ∷ es) ≡ build_from vs deps (start ++ item ∷ []) es
  unfolding build_from
  build_from-eq-take start e es item h f = ground arith

  skipped :
      (start : List BuiltMiddleware) (e : MiddlewareEntry V) (es : List (MiddlewareEntry V))
      (r : Result BuildError (List BuiltMiddleware))
      → is_enabled e ≡ false
      → Outcome start es r
      → Outcome start (e ∷ es) r
  skipped start e es (ok items) h (made, eq, m) = (made, eq, off h m)
  skipped start e es (err failure) h f = record {
    before = e ∷ f.before;
    entry = f.entry;
    behind = f.behind;
    made = f.made;
    splits = ap (λ (xs : List (MiddlewareEntry V)). e ∷ xs) f.splits;
    makes = off h f.makes;
    is_on = f.is_on;
    fails = f.fails;
    names = f.names;
    closes = f.closes;
  }

  taken :
      (start : List BuiltMiddleware) (e : MiddlewareEntry V) (es : List (MiddlewareEntry V))
      (item : BuiltMiddleware) (r : Result BuildError (List BuiltMiddleware))
      → is_enabled e ≡ true
      → create_middleware vs deps e ≡ ok item
      → Outcome (start ++ item ∷ []) es r
      → Outcome start (e ∷ es) r
  taken start e es item (ok items) h c (made, eq, m) =
      (item ∷ made, eq ∙ append_assoc start (item ∷ []) made, on h c m)
  taken start e es item (err failure) h c f = record {
    before = e ∷ f.before;
    entry = f.entry;
    behind = f.behind;
    made = item ∷ f.made;
    splits = ap (λ (xs : List (MiddlewareEntry V)). e ∷ xs) f.splits;
    makes = on h c f.makes;
    is_on = f.is_on;
    fails = f.fails;
    names = f.names;
    closes = f.closes ∙ ap (keep has_closer) (append_assoc start (item ∷ []) f.made);
  }

  build_from-Outcome :
      (start : List BuiltMiddleware) (es : List (MiddlewareEntry V))
      → Outcome start es (build_from vs deps start es)
  build_from-Outcome start [] = unfold build_from in ([], sym (append-nil start), done)
  build_from-Outcome start (e ∷ es) = elim (Bool-cases (is_enabled e)) [
    | inr h ↦
        rw (build_from-eq-skip start e es h)
          (skipped start e es (build_from vs deps start es) h (build_from-Outcome start es))
    | inl h ↦ elim (Result-cases (create_middleware vs deps e)) [
      | inl (item, c) ↦ rw (build_from-eq-take start e es item h c) (
          taken start e es item (build_from vs deps (start ++ item ∷ []) es) h c
            (build_from-Outcome (start ++ item ∷ []) es))
      | inr (error, c) ↦ rw (build_from-eq-fail start e es error h c) (record {
        before = [];
        entry = e;
        behind = es;
        made = [];
        splits = refl;
        makes = done;
        is_on = h;
        fails = c;
        names = refl;
        closes = ap (keep has_closer) (sym (append-nil start));
      })
    ]
  ]

  -- The chain has one middleware for each entry that is on, in their order; or the first such entry
  -- that cannot be made is named with its error, and what was made before it is closed.
  pub build_chain-Outcome :
      (entries : List (MiddlewareEntry V)) → Outcome [] entries (build_chain vs deps entries)
  unfolding build_chain
  build_chain-Outcome entries = build_from-Outcome [] entries
