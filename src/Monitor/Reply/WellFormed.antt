-- ===== src/Monitor/Reply/WellFormed.antt =====
-- What the parser of isMaster replies guarantees of every reply that it accepts.
use mathlib.Core.Path.{subst}
use mongo_cxx_driver.Base.{
  ℕ, ◌≡◌, ◌≢◌, refl, sym, ◌∙◌, inl, inr, true, false, not, ◌||◌, Option, none, some, List, [], ◌∷◌,
  arith, Bool-cases, Option-cases,
}
use mongo_cxx_driver.Base.Int.{ℤ}
use mongo_cxx_driver.Number.Parse
use mongo_cxx_driver.Net.HostAndPort
use mongo_cxx_driver.Net.HostAndPort.{HostAndPort, no_host, initialize}
use mongo_cxx_driver.Net.HostAndPort.Order.{host_eq-Same}
use mongo_cxx_driver.Net.HostAndPort.Named.{initialize-named}
use mongo_cxx_driver.Monitor.Hosts.{count, set_insert, IsSorted}
use mongo_cxx_driver.Monitor.Hosts.Counts.{count-set_insert, IsSorted-set_insert}
use mongo_cxx_driver.Monitor.Reply.{
  IsMasterReply, Document, to_host, add_hosts, primary_of, parse_fields, parse, reply_of, ◌>>=◌,
}

-- No address of the list has an empty host part.
abbrev pub NoUnnamed : List HostAndPort → Type 0
NoUnnamed xs = (h : HostAndPort) → h.host ≡ [] → count h xs ≡ 0

some_inj {ℓ} : {A : Type ℓ} {a b : A} → some a ≡ some b → a ≡ b
some_inj e = cc

to_host-named : (text : List ℕ) (h : HostAndPort) → to_host text ≡ some h → h.host ≢ []
unfolding to_host
to_host-named text h e = initialize-named text h (ground arith)

NoUnnamed-set_insert :
    (h : HostAndPort) (xs : List HostAndPort)
    → h.host ≢ []
    → NoUnnamed xs
    → NoUnnamed (set_insert h xs)
NoUnnamed-set_insert h xs n k g e = elim (Bool-cases (HostAndPort.host_eq h g)) [
  | inl q ↦ absurd (n ((host_eq-Same h g q).host ∙ e))
  | inr q ↦ rw (count-set_insert g h xs, q) (k g e)
]

-- A set of addresses that all have a host part.
pub record IsHostSet (xs : List HostAndPort) : Type 0 where
  pub sorted : IsSorted xs
  pub named : NoUnnamed xs

add_hosts-IsHostSet :
    (texts : List (Option (List ℕ))) (xs ys : List HostAndPort)
    → IsHostSet xs
    → add_hosts texts xs ≡ some ys
    → IsHostSet ys
unfolding add_hosts
add_hosts-IsHostSet [] xs ys h e = subst IsHostSet (some_inj e) h
add_hosts-IsHostSet (none ∷ rest) xs ys h e = cc
add_hosts-IsHostSet (some text ∷ rest) xs ys h e = elim (Option-cases (to_host text)) [
  | inl q ↦ cc (rw (q, add_hosts) at e)
  | inr (a, q) ↦
      add_hosts-IsHostSet rest (set_insert a xs) ys
        (record {
          sorted = IsSorted-set_insert a xs h.sorted;
          named = NoUnnamed-set_insert a xs (to_host-named text a q) h.named;
        })
        (rw (q, add_hosts) at e)
]

no_host_lem : HostAndPort.is_empty no_host ≡ true
unfolding HostAndPort.is_empty
no_host_lem = refl

primary_of-named :
    (text : List ℕ) (h : HostAndPort)
    → primary_of text ≡ some h
    → HostAndPort.is_empty h ≡ false
    → h.host ≢ []
unfolding primary_of
primary_of-named text h e k = elim (Bool-cases (Parse.is_empty text)) [
  | inl q ↦
      cc (subst (λ x. HostAndPort.is_empty x ≡ false) (sym (some_inj (rw q at e))) k, no_host_lem)
  | inr q ↦ to_host-named text h (rw q at e)
]

pub record IsParsed (from : HostAndPort) (latency : ℤ) (r : IsMasterReply) : Type 0 where
  pub ok : r.ok ≡ true
  pub host : r.host ≡ from
  pub latency_micros : r.latency_micros ≡ latency
  pub not_hidden : (not r.is_master || not r.hidden) ≡ true
  pub members : IsHostSet r.normal_hosts
  pub primary : HostAndPort.is_empty r.primary ≡ false → r.primary.host ≢ []

IsHostSet-nil : IsHostSet []
unfolding count
IsHostSet-nil = record { sorted = tt; named = λ h e. refl }

bind-some {ℓ κ} :
    {A : Type ℓ} {B : Type κ} (m : Option A) (f : A → Option B) (b : B)
    → (m >>= f) ≡ some b
    → (a : A) × (m ≡ some a) × (f a ≡ some b)
bind-some none f b h = cc
bind-some (some a) f b h = (a, refl, h)

fields_cases :
    (from : HostAndPort) (latency : ℤ) (d : Document) (p : Option HostAndPort)
    (hs : Option (List HostAndPort)) (f : List HostAndPort → Option (List HostAndPort))
    (r : IsMasterReply)
    → (p >>= λ primary.
        hs >>= λ hosts. f hosts >>= λ all. some (reply_of from latency d primary all))
      ≡ some r
    → (primary : HostAndPort) × (hosts all : List HostAndPort) × (p ≡ some primary)
      × (hs ≡ some hosts)
      × (f hosts ≡ some all)
      × (reply_of from latency d primary all ≡ r)
fields_cases from latency d none hs f r e = cc
fields_cases from latency d (some p) none f r e = cc
fields_cases from latency d (some p) (some hs) f r e =
    let (all, q, e') = bind-some (f hs) (λ all. some (reply_of from latency d p all)) r e in
    (p, hs, all, refl, refl, q, some_inj e')

parse_fields-IsParsed :
    (from : HostAndPort) (latency : ℤ) (d : Document) (r : IsMasterReply)
    → parse_fields from latency d ≡ some r
    → IsParsed from latency r
unfolding parse_fields
parse_fields-IsParsed from latency d r e =
    let (p, hosts, all, ep, eh, ea, q) =
      fields_cases from latency d (primary_of d.primary) (add_hosts d.hosts [])
        (add_hosts d.passives) r e in
    subst (IsParsed from latency) q (record {
      ok = refl;
      host = refl;
      latency_micros = refl;
      not_hidden = ground arith;
      members =
          add_hosts-IsHostSet d.passives hosts all
            (add_hosts-IsHostSet d.hosts [] hosts IsHostSet-nil eh) ea;
      primary = primary_of-named d.primary p ep;
    })

-- A reply that is parsed without an error, from a document whose `ok` is true, carries its sender and
-- latency, is not both hidden and master, lists its members in strictly ascending order and under
-- host parts that are not empty, and its primary, if it names one, has a host part.
pub parse-IsParsed :
    (from : HostAndPort) (latency : ℤ) (d : Document) (r : IsMasterReply)
    → parse from latency d ≡ some r
    → IsParsed from latency r × (d.ok ≡ true)
unfolding parse
parse-IsParsed from latency d r e = elim (Bool-cases d.ok) [
  | inl good ↦ (parse_fields-IsParsed from latency d r (rw good at e), good)
  | inr bad ↦ cc (rw bad at e)
]
