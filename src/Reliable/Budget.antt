-- ===== src/Reliable/Budget.antt =====
-- How often DelegateMQ/extras/util/RetryMonitor.h sends a packet.
use async_duck_db.Common.{
  ℕ, suc, ◌+◌, ◌-◌, ◌≤◌, ◌<◌, ◌≡◌, refl, sym, ◌∙◌, ap, subst, Bool, List, [], ◌∷◌, ◌++◌, Option,
  none, some, ◌==◌, ltb, Bool-cases, inl, inr, if◌then◌else◌, arith, lookup, insert, erase,
  IsOrdered, insert-Above, erase-Above, lookup-insert, lookup-erase,
}
use async_duck_db.Reliable.{Status, success, timeout, key_of, add}
use async_duck_db.Reliable.Retry.{Link, Packet, RetryEntry, header_key, on_entry, on_status_changed}

-- the transmissions of the packets with a key
pub transmissions : ℕ → List Packet → ℕ
transmissions k [] = 0
transmissions k (p ∷ ps) =
    if header_key p.head == k then suc (transmissions k ps) else transmissions k ps

pub transmissions-snoc :
    (k : ℕ) (ps : List Packet) (p : Packet)
    → transmissions k (ps ++ (p ∷ []))
      ≡ transmissions k ps + (if header_key p.head == k then 1 else 0)
unfolding transmissions
transmissions-snoc k [] p = ground arith
transmissions-snoc k (q ∷ ps) p = ground (arith, transmissions-snoc k ps p)

abbrev pub budget_of : Option RetryEntry → ℕ
budget_of none = 0
budget_of (some e) = e.attempts_remaining

abbrev pub budget : ℕ → Link → ℕ
budget k l = budget_of (lookup k l.retry_store)

-- Each stored packet stands under the key of its header, and the store is a map.
abbrev pub IsKeyed : List (ℕ × RetryEntry) → Type 0
IsKeyed [] = Unit
IsKeyed ((k, e) ∷ m) = (header_key e.header ≡ k) × IsKeyed m

pub record IsLink (l : Link) : Type 0 where
  pub keyed : IsKeyed l.retry_store
  pub ordered : IsOrdered l.retry_store

pub lookup-IsKeyed :
    (k : ℕ) (e : RetryEntry) (m : List (ℕ × RetryEntry))
    → IsKeyed m
    → lookup k m ≡ some e
    → header_key e.header ≡ k
lookup-IsKeyed k e [] w h = cc
lookup-IsKeyed k e ((j, d) ∷ m) w h = ground (arith, lookup-IsKeyed k e m w.1)

pub insert-IsKeyed :
    (k : ℕ) (e : RetryEntry) (m : List (ℕ × RetryEntry))
    → header_key e.header ≡ k
    → IsKeyed m
    → IsKeyed (insert k e m)
insert-IsKeyed k e [] h w = (h, tt)
insert-IsKeyed k e ((j, d) ∷ m) h w = ground (arith, insert-IsKeyed k e m h w.1)

pub erase-IsKeyed : (k : ℕ) (m : List (ℕ × RetryEntry)) → IsKeyed m → IsKeyed (erase k m)
erase-IsKeyed k [] w = tt
erase-IsKeyed k ((j, d) ∷ m) w = ground (arith, erase-IsKeyed k m w.1)

-- the entry with one attempt less
abbrev pub spend : RetryEntry → RetryEntry
spend e = record e { attempts_remaining = e.attempts_remaining - 1 }

abbrev pub packet_of : RetryEntry → Packet
packet_of e = record { head = e.header; payload = e.packet_data }

-- What a status event for a stored packet does with the store and the transport.
data Effect (j : ℕ) (e : RetryEntry) (l k : Link) : Type 0 where
  unchanged : k.retry_store ≡ l.retry_store → k.sent ≡ l.sent → Effect j e l k
  forgotten : k.retry_store ≡ erase j l.retry_store → k.sent ≡ l.sent → Effect j e l k
  resent :
      0 < e.attempts_remaining
      → k.retry_store ≡ insert j (spend e) l.retry_store
      → k.sent ≡ l.sent ++ (packet_of e ∷ [])
      → Effect j e l k
  given_up :
      k.retry_store ≡ erase j (insert j (spend e) l.retry_store) → k.sent ≡ l.sent → Effect j e l k

module _ {j : ℕ} {e : RetryEntry} {l k : Link} where
  Effect-IsKeyed :
      Effect j e l k → header_key e.header ≡ j → IsKeyed l.retry_store → IsKeyed k.retry_store
  Effect-IsKeyed (unchanged p q) h w = subst IsKeyed (sym p) w
  Effect-IsKeyed (forgotten p q) h w = subst IsKeyed (sym p) (erase-IsKeyed j l.retry_store w)
  Effect-IsKeyed (resent a p q) h w =
      subst IsKeyed (sym p) (insert-IsKeyed j (spend e) l.retry_store h w)
  Effect-IsKeyed (given_up p q) h w =
      subst IsKeyed (sym p) (erase-IsKeyed j _ (insert-IsKeyed j (spend e) l.retry_store h w))

  Effect-IsOrdered : Effect j e l k → IsOrdered l.retry_store → IsOrdered k.retry_store
  Effect-IsOrdered (unchanged p q) w = subst IsOrdered (sym p) w
  Effect-IsOrdered (forgotten p q) w = subst IsOrdered (sym p) (erase-Above 0 j l.retry_store w)
  Effect-IsOrdered (resent a p q) w =
      subst IsOrdered (sym p) (insert-Above 0 j (spend e) l.retry_store (omega arith) w)
  Effect-IsOrdered (given_up p q) w =
      subst IsOrdered (sym p)
        (erase-Above 0 j _ (insert-Above 0 j (spend e) l.retry_store (omega arith) w))

  Effect-budget :
      (i : ℕ)
      → Effect j e l k
      → header_key e.header ≡ j
      → lookup j l.retry_store ≡ some e
      → IsOrdered l.retry_store
      → transmissions i k.sent + budget i k ≤ transmissions i l.sent + budget i l
  Effect-budget i (unchanged p q) h f w =
      omega (arith, ap (transmissions i) q, ap (λ m. budget_of (lookup i m)) p)
  Effect-budget i (forgotten p q) h f w = ground (
    arith,
    ap (transmissions i) q,
    ap budget_of (ap (lookup i) p ∙ lookup-erase 0 j i l.retry_store w),
  )
  Effect-budget i (resent a p q) h f w = ground (
    arith,
    ap (transmissions i) q ∙ transmissions-snoc i l.sent (packet_of e),
    ap budget_of (ap (lookup i) p ∙ lookup-insert j i (spend e) l.retry_store),
  )
  Effect-budget i (given_up p q) h f w = ground (
    arith,
    ap (transmissions i) q,
    ap budget_of (
        ap (lookup i) p
        ∙ lookup-erase 0 j i _ (insert-Above 0 j (spend e) l.retry_store (omega arith) w)),
    lookup-insert j i (spend e) l.retry_store,
  )

module _ (send : List Packet → Packet → Bool) where
  on_entry-Effect :
      (now j : ℕ) (s : Status) (e : RetryEntry) (l : Link)
      → Effect j e l (on_entry send now j s (some e) l)
  on_entry-Effect now j success e l = forgotten refl refl
  on_entry-Effect now j timeout e l = elim (Bool-cases (ltb 0 e.attempts_remaining)) [
    | inr h ↦ forgotten (ground arith) (ground arith)
    | inl h ↦ elim (Bool-cases e.is_sent) [
      | inr g ↦ unchanged (ground arith) (ground arith)
      | inl g ↦ elim (Bool-cases (add now e.header.seq_num e.header.id l.monitor).0.0) [
        | inl b ↦ resent (ground arith) (ground arith) (ground arith)
        | inr b ↦ given_up (ground arith) (ground arith)
      ]
    ]
  ]

  on_looked_up :
      (now id seq : ℕ) (s : Status) (l : Link) (o : Option RetryEntry)
      → IsLink l
      → lookup (key_of id seq) l.retry_store ≡ o
      → IsLink (on_entry send now (key_of id seq) s o l)
        × ((i : ℕ)
            → transmissions i (on_entry send now (key_of id seq) s o l).sent
                + budget i (on_entry send now (key_of id seq) s o l)
              ≤ transmissions i l.sent + budget i l)
  on_looked_up now id seq s l none w f = (w, λ i. omega arith)
  on_looked_up now id seq s l (some e) w f =
      let d = on_entry-Effect now (key_of id seq) s e l in
      let h = lookup-IsKeyed (key_of id seq) e l.retry_store w.keyed f in
      (
        record { keyed = Effect-IsKeyed d h w.keyed; ordered = Effect-IsOrdered d w.ordered },
        λ i. Effect-budget i d h f w.ordered,
      )

  pub on_status_changed-IsLink :
      (now id seq : ℕ) (s : Status) (l : Link)
      → IsLink l
      → IsLink (on_status_changed send now id seq s l)
  unfolding on_status_changed
  on_status_changed-IsLink now id seq s l w = (on_looked_up now id seq s l _ w refl).0

  -- A status event for any packet spends at least as much of a packet's budget of retries as it sends
  -- of it again.
  pub on_status_changed-budget :
      (i now id seq : ℕ) (s : Status) (l : Link)
      → IsLink l
      → transmissions i (on_status_changed send now id seq s l).sent
          + budget i (on_status_changed send now id seq s l)
        ≤ transmissions i l.sent + budget i l
  unfolding on_status_changed
  on_status_changed-budget i now id seq s l w = (on_looked_up now id seq s l _ w refl).1 i
