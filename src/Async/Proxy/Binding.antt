-- ===== src/Async/Proxy/Binding.antt =====
-- The parameters of a `PreparedStatement` (DuckDB/async_duckdb.cpp): what `Bind` leaves for `Execute`.
use async_duck_db.Common.{
  ℕ, zero, suc, ◌+◌, ◌-◌, ◌≤◌, ◌<◌, ◌≡◌, ◌≢◌, refl, List, [], ◌∷◌, ◌++◌, Option, none, some, arith,
  if◌then◌else◌, ltb, ◌==◌, ◌&&◌, ◌⊎◌, length, set, get_elem?, replicate, List-ext, length-append,
  length-set, length-replicate,
}
use async_duck_db.Async.Task.{thrown, World, index_too_low, index_too_high}
use async_duck_db.Async.Dispatch.{Env}
use async_duck_db.Async.Engine.{Engine}
use async_duck_db.Async.Proxy.{Store, Reply, bind_param, bind_task}
use async_duck_db.Async.Proxy.Objects.{bind_value, sync}

module _ {ℓ} {A : Type ℓ} where
  get_elem?-set :
      (xs : List A) (i j : ℕ) (v : A)
      → get_elem? (set xs i v) j ≡ (if i == j && ltb i (length xs) then some v else get_elem? xs j)
  get_elem?-set [] i j v = ground arith
  get_elem?-set (x ∷ xs) zero zero v = ground arith
  get_elem?-set (x ∷ xs) zero (suc j) v = ground arith
  get_elem?-set (x ∷ xs) (suc i) zero v = ground arith
  get_elem?-set (x ∷ xs) (suc i) (suc j) v = ground (arith, get_elem?-set xs i j v)

  get_elem?-replicate :
      (n j : ℕ) (d : A) → get_elem? (replicate n d) j ≡ (if ltb j n then some d else none)
  get_elem?-replicate zero j d = ground arith
  get_elem?-replicate (suc n) zero d = ground arith
  get_elem?-replicate (suc n) (suc j) d = ground (arith, get_elem?-replicate n j d)

  get_elem?-append :
      (xs ys : List A) (j : ℕ)
      → get_elem? (xs ++ ys) j
        ≡ (if ltb j (length xs) then get_elem? xs j else get_elem? ys (j - length xs))
  get_elem?-append [] ys j = ground arith
  get_elem?-append (x ∷ xs) ys zero = ground arith
  get_elem?-append (x ∷ xs) ys (suc j) = ground (arith, get_elem?-append xs ys j)

  get_elem?-beyond : (xs : List A) (j : ℕ) → length xs ≤ j → get_elem? xs j ≡ none
  get_elem?-beyond [] j h = refl
  get_elem?-beyond (x ∷ xs) zero h = absurd (omega arith)
  get_elem?-beyond (x ∷ xs) (suc j) h = get_elem?-beyond xs j (omega arith)

module _ (E : Engine) where
  -- After the task of `Bind(k, v)`, for `k` from 1 on, parameter `k` is `v`, the others are as
  -- before, and those between the old end and `k` are the engine's null value.
  pub bind_param-get_elem? :
      (k j : ℕ) (v : E.Value) (ps : List E.Value)
      → 0 < k
      → get_elem? (bind_param E k v ps) j ≡ (
          if j + 1 == k
          then some v
          else if ltb j (length ps)
          then get_elem? ps j
          else if ltb j k
          then some E.null_value
          else none)
  bind_param-get_elem? k j v ps h = ground (
    arith,
    get_elem?-set (ps ++ replicate (k - length ps) E.null_value) (k - 1) j v,
    get_elem?-append ps (replicate (k - length ps) E.null_value) j,
    get_elem?-replicate (k - length ps) (j - length ps) E.null_value,
    length-append ps (replicate (k - length ps) E.null_value),
    length-replicate (k - length ps) E.null_value,
  )

  pub length-bind_param :
      (k : ℕ) (v : E.Value) (ps : List E.Value)
      → length (bind_param E k v ps) ≡ (if ltb (length ps) k then k else length ps)
  length-bind_param k v ps = ground (
    arith,
    length-set (ps ++ replicate (k - length ps) E.null_value) (k - 1) v,
    length-append ps (replicate (k - length ps) E.null_value),
    length-replicate (k - length ps) E.null_value,
  )

  -- The order of two calls of `Bind` for different parameters, numbered from 1, does not matter.
  pub bind_param_comm :
      (i j : ℕ) (v u : E.Value) (ps : List E.Value)
      → 0 < i
      → 0 < j
      → i ≢ j
      → bind_param E i v (bind_param E j u ps) ≡ bind_param E j u (bind_param E i v ps)
  bind_param_comm i j v u ps hi hj ne = List-ext _ _ λ k. ground (
    arith,
    bind_param-get_elem? i k v (bind_param E j u ps) hi,
    bind_param-get_elem? j k u ps hj,
    bind_param-get_elem? j k u (bind_param E i v ps) hj,
    bind_param-get_elem? i k v ps hi,
    length-bind_param i v ps,
    length-bind_param j u ps,
    get_elem?-beyond ps k,
  )

  module _ (caller : Option ℕ) (env : Env (Store E) (Reply E)) where
    -- `Bind` throws with nothing changed for the index 0 and for those above 1000; it sends the
    -- others to the worker.
    pub bind_value_cases :
        (i index : ℕ) (v : E.Value) (w : World (Store E) (Reply E))
        → ((index ≡ 0) × (bind_value E caller env i index v w ≡ (thrown index_too_low, w)))
          ⊎ (((1000 < index) × (bind_value E caller env i index v w ≡ (thrown index_too_high, w)))
              ⊎ ((0 < index)
                  × (index ≤ 1000)
                  × (bind_value E caller env i index v w
                      ≡ sync E caller env (bind_task E i index v) w)))
    unfolding bind_value
    bind_value_cases i index v w = ground arith
