-- ===== src/Monitor/Scan/Received.antt =====
-- What the arrival of a reply, or of none, does to the invariant of a set.
use mongo_cxx_driver.Base.{
  ℕ, ◌^◌, ◌<◌, ◌≡◌, ◌≢◌, refl, ap, ◌∙◌, inl, inr, Bool, true, false, not, ◌||◌, Option, none, some,
  List, [], ◌∷◌, ◌++◌, arith, ◌==◌, if◌then◌else◌, Bool-cases,
}
use mongo_cxx_driver.Base.Int.{ℤ, pos_part}
use mongo_cxx_driver.Net.HostAndPort.{HostAndPort, host_eq, text_eq}
use mongo_cxx_driver.Monitor.Reply.{IsMasterReply, Document, parse}
use mongo_cxx_driver.Monitor.Nodes.{Node, update_node_if_in_nodes}
use mongo_cxx_driver.Monitor.Nodes.Laws.{All, IsUsable}
use mongo_cxx_driver.Monitor.Scan.{
  ScanState, SetState, Shuffle, failed_host, before_found_master, record_reply,
}
use mongo_cxx_driver.Monitor.Scan.Refresher.{
  from_master, confirm_master, received_reply, received_parsed, received_is_master, handle_reply,
  deliver, deliver_to,
}
use mongo_cxx_driver.Monitor.Scan.Invariant.{NodesInv, ScanInv, CurrentInv, SetInv, IsPending}
use mongo_cxx_driver.Monitor.Scan.Members.{hosts_of-update_node, update_node-IsConsistent}
use mongo_cxx_driver.Monitor.Scan.Enqueue.{Permutes}
use mongo_cxx_driver.Monitor.Scan.Queue.{before_found-ScanInv, erase-ScanInv}
use mongo_cxx_driver.Monitor.Scan.Start.{mark_failed-NodesInv}
use mongo_cxx_driver.Monitor.Scan.Master.{
  IsGoodReply, parse-IsGoodReply, BothInv, from_master-BothInv,
}

-- A reply may be applied to a node if it is no master's, or the last master's.
abbrev MayApply : HostAndPort → IsMasterReply → Type 0
MayApply m r =
    (n : Node) → host_eq n.host r.host ≡ true → (not r.is_master || host_eq n.host m) ≡ true

found_any : (scan : ScanState) → ScanInv scan → ScanInv (record scan { found_any_up_nodes = true })
found_any scan v = record {
  once = v.once;
  waiting = v.waiting;
  possible = v.possible;
  queue_named = v.queue_named;
  tried_named = v.tried_named;
  possible_named = v.possible_named;
  pending = v.pending;
  settled = v.settled;
}

update_node-NodesInv :
    (m : HostAndPort) (seeds : List HostAndPort) (r : IsMasterReply) (ns : List Node)
    → IsUsable r
    → MayApply m r
    → NodesInv m seeds ns
    → NodesInv m seeds (update_node_if_in_nodes r ns)
update_node-NodesInv m seeds r ns u k v =
    let same = hosts_of-update_node r ns in
    record {
      sorted = rw same v.sorted;
      consistent = update_node-IsConsistent m r ns u k v.consistent;
      members = λ h. rw same (v.members h);
    }

All-append :
    (rs : List IsMasterReply) (r : IsMasterReply)
    → All IsPending rs
    → IsPending r
    → All IsPending (rs ++ r ∷ [])
All-append [] r a p = (p, tt)
All-append (x ∷ xs) r a p = (a.0, All-append xs r a.1 p)

-- Before a master is found the reply waits among the unconfirmed ones.
unconfirmed-ScanInv :
    (r : IsMasterReply) (scan : ScanState)
    → IsPending r
    → scan.found_up_master ≡ false
    → ScanInv scan
    → ScanInv (record scan {
      unconfirmed_replies = scan.unconfirmed_replies ++ r ∷ [];
      found_any_up_nodes = true;
    })
unconfirmed-ScanInv r scan p e v = record {
  once = v.once;
  waiting = v.waiting;
  possible = v.possible;
  queue_named = v.queue_named;
  tried_named = v.tried_named;
  possible_named = v.possible_named;
  pending = All-append scan.unconfirmed_replies r v.pending p;
  settled = rw e refl;
}

before_found_lem :
    (r : IsMasterReply) (scan : ScanState)
    → (before_found_master r scan).found_up_master ≡ scan.found_up_master
unfolding before_found_master
before_found_lem r scan = refl

chosen-BothInv :
    (b : Bool) (x y : ScanState × SetState)
    → (b ≡ true → BothInv x)
    → (b ≡ false → BothInv y)
    → BothInv (if b then x else y)
chosen-BothInv true x y f g = f refl
chosen-BothInv false x y f g = g refl

record_reply-BothInv :
    (r : IsMasterReply) (scan : ScanState) (s : SetState)
    → IsGoodReply r
    → MayApply s.last_seen_master r
    → (scan.found_up_master ≡ false → r.is_master ≡ false)
    → BothInv (scan, s)
    → BothInv (record_reply r scan s)
unfolding record_reply
record_reply-BothInv r scan s g k no_master v =
    chosen-BothInv scan.found_up_master _ _
      (λ e. (
        found_any scan v.0,
        update_node-NodesInv s.last_seen_master s.seed_nodes r s.nodes g.usable k v.1,
      ))
      (λ e. (
        unconfirmed-ScanInv r (before_found_master r scan)
            (record { usable = g.usable; no_master = no_master e }) (before_found_lem r scan ∙ e)
            (before_found-ScanInv r scan g.members g.primary v.0),
        v.1,
      ))

failed_host-BothInv :
    (h : HostAndPort) (scan : ScanState) (s : SetState)
    → BothInv (scan, s)
    → BothInv ((failed_host h scan s.nodes).0, record s { nodes = (failed_host h scan s.nodes).1 })
unfolding failed_host
failed_host-BothInv h scan s v =
    (erase-ScanInv h scan v.0, mark_failed-NodesInv s.last_seen_master h s.seed_nodes s.nodes v.1)

module _ (shuffle : Shuffle) (ok : Permutes shuffle) where
  confirm_master-last :
      (r : IsMasterReply) (scan : ScanState) (s : SetState)
      → ((confirm_master shuffle r scan s).1.last_seen_master ≡ r.host)
        × ((confirm_master shuffle r scan s).0.found_up_master ≡ true)
  unfolding confirm_master
  confirm_master-last r scan s = (refl, refl)

  -- After a master's reply the scan has its master, which is the last one seen.
  from_master-last :
      (r : IsMasterReply) (scan : ScanState) (s : SetState)
      → ((from_master shuffle r scan s).1.last_seen_master ≡ r.host)
        × ((from_master shuffle r scan s).0.found_up_master ≡ true)
  unfolding from_master confirm_master
  from_master-last r scan s = ground arith

  received_reply-BothInv :
      (r : IsMasterReply) (scan : ScanState) (s : SetState)
      → IsGoodReply r
      → BothInv (scan, s)
      → BothInv (received_reply shuffle r scan s)
  unfolding received_reply
  received_reply-BothInv r scan s g v =
      chosen-BothInv (not r.ok || not (text_eq r.set_name s.name)) _ _
        (λ e. failed_host-BothInv r.host scan s v)
        (λ e.
          chosen-BothInv r.is_master _ _
            (λ m.
              let after = from_master shuffle r scan s in
              let last = from_master-last r scan s in
              record_reply-BothInv r after.0 after.1 g
                (λ n q. ground (arith, m, q, ap (host_eq n.host) last.0)) (λ f. cc (last.1, f))
                (from_master-BothInv shuffle ok r scan s g v))
            (λ m. record_reply-BothInv r scan s g (λ n q. rw m refl) (λ f. m) v))

  received_parsed-BothInv :
      (from : HostAndPort) (latency : ℤ) (d : Document) (o : Option IsMasterReply)
      (scan : ScanState) (s : SetState)
      → from.host ≢ []
      → pos_part latency < 2 ^ 63
      → parse from latency d ≡ o
      → BothInv (scan, s)
      → BothInv (received_parsed shuffle from o scan s)
  received_parsed-BothInv from latency d none scan s n l e v = failed_host-BothInv from scan s v
  received_parsed-BothInv from latency d (some r) scan s n l e v =
      received_reply-BothInv r scan s (parse-IsGoodReply from latency d r n l e) v

  handle_reply-BothInv :
      (from : HostAndPort) (latency : ℤ) (reply : Option Document) (scan : ScanState) (s : SetState)
      → from.host ≢ []
      → pos_part latency < 2 ^ 63
      → BothInv (scan, s)
      → BothInv (handle_reply shuffle from latency reply scan s)
  unfolding handle_reply received_is_master
  handle_reply-BothInv from latency none scan s n l v = failed_host-BothInv from scan s v
  handle_reply-BothInv from latency (some d) scan s n l v =
      received_parsed-BothInv from latency d _ _ s n l refl (erase-ScanInv from scan v.0, v.1)

  deliver_to-SetInv :
      (mine : ℕ) (from : HostAndPort) (latency : ℤ) (reply : Option Document)
      (c : Option (ℕ × ScanState)) (s : SetState)
      → from.host ≢ []
      → pos_part latency < 2 ^ 63
      → CurrentInv c
      → SetInv s
      → SetInv (deliver_to shuffle mine from latency reply c s)
  unfolding deliver_to
  deliver_to-SetInv mine from latency reply none s n l k v = v
  deliver_to-SetInv mine from latency reply (some (id, scan)) s n l k v =
      let both = handle_reply-BothInv from latency reply scan s n l (k, v.nodes) in
      elim (Bool-cases (mine == id)) [
        | inl e ↦ rw e (record { nodes = both.1; current = both.0 })
        | inr e ↦ rw e v
      ]

  -- If `random_shuffle` permutes, a call that has come back, with a reply or without one, keeps the
  -- invariant of the set, where the host has a host part and the latency is below 2 to the 63.
  pub deliver-SetInv :
      (mine : ℕ) (from : HostAndPort) (latency : ℤ) (reply : Option Document) (s : SetState)
      → from.host ≢ []
      → pos_part latency < 2 ^ 63
      → SetInv s
      → SetInv (deliver shuffle mine from latency reply s)
  unfolding deliver
  deliver-SetInv mine from latency reply s n l v =
      deliver_to-SetInv mine from latency reply s.current_scan s n l v.current v
