-- ===== src/ArbUuid/Unlock.antt =====
-- arb_uuid_unlock of src/duallive/arbitrary_disk.c.
use duallive.Base.{
  ℕ, ◌+◌, ◌-◌, ◌<◌, ◌≡◌, refl, sym, ap, ◌∙◌, arith, inl, inr, true, false, not, ◌==◌, Bool-cases,
  ==→eq, eq→==, ne→==, none, some, Returns, lt→ltb, verify,
}
use duallive.ArbUuid.{
  Lists, Disks, Node, Manager, update, node_at, set_node, drop_node, uuid_lock_free,
  uuid_lock_cachable, max_uuid_num, retire, arb_uuid_unlock,
}
use duallive.ArbUuid.Sound.{Lawful, Sound, each_node, held_node, once, minus}
use duallive.ArbUuid.Change.{Leaves, Leaves-Sound, Changes, Changes-Sound}
use duallive.ArbUuid.Cleanup.{cache_cleanup-Cleaned}
use duallive.ArbUuid.References.{
  itself, another, twice, known, Changes-known, occurs-list_insert_tail,
}

less_at : (f : ℕ → ℕ) (a : ℕ) → minus f a a ≡ f a - 1
less_at f a = itself a (f a - 1) (f a)

module _ {T L W D : Type 0} (lists : Lists T L) (disks : Disks W D) (law : Lawful lists) where
  -- What arb_uuid_unlock leaves: one reference less, and the nodes that are held still keep their uuids
  -- and disks.
  pub record Unlocked (refs : ℕ → ℕ) (m : Manager T L D) (a : ℕ) (m' : Manager T L D) : Type 0 where
    pub sound : Sound lists law (minus refs a) (minus refs a) m'
    pub kept : (b : ℕ) → 0 < minus refs a b → known (m'.nodes b) ≡ known (m.nodes b)

  -- The manager after n->ref--.
  abbrev less_ref : Manager T L D → ℕ → Node D → Manager T L D
  less_ref m a n = record m { nodes = update m.nodes a (some n) }

  still_held :
      {refs : ℕ → ℕ} (m : Manager T L D) (a : ℕ) (n : Node D)
      → Sound lists law refs refs m
      → m.nodes a ≡ some n
      → 0 < refs a - 1
      → Unlocked refs m a (less_ref m a (record n { ref = n.ref - 1 }))
  still_held {refs} m a n s there more =
      let old = each_node lists law s a n there in
      let n1 = record n { ref = n.ref - 1 } in
      let l : Changes lists law refs refs (minus refs a) (minus refs a) m (less_ref m a n1) a n n1 =
        record {
          here = there;
          there = itself a (some n1) (m.nodes a);
          same_uuid = refl;
          ref = ap (λ r. r - 1) old.0 ∙ sym (less_at refs a);
          status =
              old.1
              ∙ ne→== (refs a) 0 (λ e. omega (arith, e, more))
              ∙ sym (
                  ap (λ p. p == 0) (less_at refs a)
                  ∙ ne→== (refs a - 1) 0 (λ e. omega (arith, e, more)));
          in_cache = old.2;
          tree = refl;
          next = refl;
          elsewhere = record {
            within = λ b. omega arith;
            refs_same = λ b other. another _ _ other;
            pins_same = λ b other. another _ _ other;
            cache_same = λ b other. refl;
            nodes_same = λ b other. another _ _ other;
          };
        } in
      record {
        sound = Changes-Sound lists law s l;
        kept = λ b held. Changes-known lists disks law l refl b;
      }

  -- The last reference goes, and the node into the cache.
  into_cache :
      {refs : ℕ → ℕ} (m : Manager T L D) (a : ℕ) (n : Node D)
      → Sound lists law refs refs m
      → m.nodes a ≡ some n
      → refs a ≡ 1
      → Changes lists law refs refs
          (minus refs a)
          (minus refs a)
          m
          (record m {
            cache = lists.list_insert_tail m.cache a;
            nodes =
                update
                  (update m.nodes a (some (record n { ref = n.ref - 1 })))
                  a
                  (some (record n { ref = n.ref - 1; cached = true }));
          })
          a
          n
          (record n { ref = n.ref - 1; cached = true })
  into_cache {refs} m a n s there one =
      let old = each_node lists law s a n there in
      let idle = old.1 ∙ ne→== (refs a) 0 (λ e. omega (arith, e, one)) in
      let gone = less_at refs a ∙ ap (λ r. r - 1) one in
      record {
        here = there;
        there = itself a _ _;
        same_uuid = refl;
        ref = ap (λ r. r - 1) old.0 ∙ sym (less_at refs a);
        status = sym (ap (λ p. p == 0) gone);
        in_cache =
            occurs-list_insert_tail lists disks law m.cache a a
            ∙ itself a _ _
            ∙ ap (λ o. o + 1) (old.2 ∙ ap once idle);
        tree = refl;
        next = refl;
        elsewhere = record {
          within = λ b. omega arith;
          refs_same = λ b other. another _ _ other;
          pins_same = λ b other. another _ _ other;
          cache_same =
              λ b other. occurs-list_insert_tail lists disks law m.cache a b ∙ another _ _ other;
          nodes_same = λ b other. twice m.nodes a b _ _ ∙ another _ _ other;
        };
      }

  -- The last reference goes, and the node with it.
  dropped :
      {refs : ℕ → ℕ} (m : Manager T L D) (a : ℕ) (n : Node D)
      → Sound lists law refs refs m
      → m.nodes a ≡ some n
      → refs a ≡ 1
      → Leaves lists law refs refs
          (minus refs a)
          (minus refs a)
          m
          (record m {
            tree = lists.avl_remove m.tree n.uuid;
            nodes = update (update m.nodes a (some (record n { ref = n.ref - 1 }))) a none;
          })
          a
          n
  dropped {refs} m a n s there one =
      let old = each_node lists law s a n there in
      let idle = old.1 ∙ ne→== (refs a) 0 (λ e. omega (arith, e, one)) in
      let gone = less_at refs a ∙ ap (λ r. r - 1) one in
      record {
        here = there;
        no_refs = gone;
        no_pins = gone;
        not_cached = old.2 ∙ ap once idle;
        freed = itself a _ _;
        tree = refl;
        next = refl;
        elsewhere = record {
          within = λ b. omega arith;
          refs_same = λ b other. another _ _ other;
          pins_same = λ b other. another _ _ other;
          cache_same = λ b other. refl;
          nodes_same = λ b other. twice m.nodes a b _ _ ∙ another _ _ other;
        };
      }

  held_other : (refs : ℕ → ℕ) (a b : ℕ) → refs a ≡ 1 → 0 < minus refs a b → (a == b) ≡ false
  held_other refs a b one held = elim (Bool-cases (a == b)) [
    | inr other ↦ other
    | inl same ↦
        absurd (omega (arith, held, ap (minus refs a) (sym (==→eq a b same)), less_at refs a, one))
  ]

  -- On a node that is held, arb_uuid_unlock returns without a fault. The manager agrees with the nodes
  -- that are held then, with one reference less, and those keep their uuids and disks.
  pub arb_uuid_unlock-Unlocked :
      {refs : ℕ → ℕ} (m : Manager T L D) (w : W) (a : ℕ)
      → Sound lists law refs refs m
      → 0 < refs a
      → Returns (λ r. Unlocked refs m a r.0) (arb_uuid_unlock lists disks m w a)
  unfolding arb_uuid_unlock retire node_at set_node drop_node uuid_lock_free
  arb_uuid_unlock-Unlocked {refs} m w a s held =
      let (n, there) = held_node lists law s a held in
      let old = each_node lists law s a n there in
      let idle = old.1 ∙ ne→== (refs a) 0 (λ e. omega (arith, e, held)) in
      let counted = lt→ltb 0 n.ref (omega (arith, old.0, held)) in
      elim (Bool-cases (n.ref - 1 == 0)) [
        | inr more ↦
            let others : 0 < refs a - 1 = ground (arith, old.0, held, more) in
            rw (arb_uuid_unlock, node_at, there, counted, more)
              ((_, w), refl, still_held m a n s there others)
        | inl last ↦
            let one : refs a ≡ 1 = omega (arith, old.0, held, ==→eq (n.ref - 1) 0 last) in
            let n1 = record n { ref = n.ref - 1 } in
            elim (Bool-cases (uuid_lock_cachable lists disks w n1)) [
              | inl keep ↦
                  let verified = ap (λ c. verify (not c)) idle in
                  let l = into_cache m a n s there one in
                  let (r, cleans, c) =
                    cache_cleanup-Cleaned lists disks law _ w max_uuid_num
                      (Changes-Sound lists law s l) in
                  rw
                    (arb_uuid_unlock, node_at, there, counted, last, retire, keep, verified, cleans)
                    (
                      r,
                      refl,
                      record {
                        sound = c.sound;
                        kept = λ b held.
                            ap known (c.kept b held) ∙ Changes-known lists disks law l refl b;
                      },
                    )
              | inr lose ↦
                  let l = dropped m a n s there one in
                  rw
                    (
                      arb_uuid_unlock,
                      node_at,
                      there,
                      counted,
                      last,
                      retire,
                      lose,
                      drop_node,
                      node_at,
                      eq→== a a refl,
                    )
                    (
                      (_, _),
                      refl,
                      record {
                        sound = Leaves-Sound lists law s l;
                        kept = λ b held.
                            ap known (l.elsewhere.nodes_same b (held_other refs a b one held));
                      },
                    )
            ]
      ]
