-- ===== src/RegAlloc/GraphColoring/Graph.antt =====
-- src/backend/regalloc/GraphColoring.hpp: the interference graph.
use lsm_toolchain.Prelude.{
  ◌≡◌, ◌≢◌, refl, sym, ap, subst, ◌∙◌, inl, inr, List, [], ◌∷◌, String, true, mem, mem_iff, str_eq,
  In, Bool-cases, eq_iff, arith,
}
use lsm_toolchain.RegAlloc.Interval.{LiveInterval, overlaps}
use lsm_toolchain.RegAlloc.GraphColoring.{
  Node, insert_name, add_neighbor, link, link_with, link_all,
}

-- Some node has the name, and every node of the name has `b` among its neighbours.
pub record Near (a b : String) (g : List Node) : Type 0 where
  pub near : (n : Node) → In n g → n.var_name ≡ a → In b n.neighbors

In-insert_name : (a : String) (xs : List String) → In a (insert_name a xs)
In-insert_name a xs = elim (Bool-cases (mem a xs)) [
  | inl there ↦ rw there ((mem_iff a xs).0 there)
  | inr new ↦ rw new (inl refl)
]

In_insert_name : (a b : String) (xs : List String) → In b xs → In b (insert_name a xs)
In_insert_name a b xs m = elim (Bool-cases (mem a xs)) [
  | inl there ↦ rw there m
  | inr new ↦ rw new (inr m)
]

-- A node of the changed graph was there before, with some of its neighbours.
add_neighbor-node :
    (a b : String) (g : List Node) (n : Node)
    → In n (add_neighbor a b g)
    → (m : Node) × In m g
      × (n.var_name ≡ m.var_name)
      × ((c : String) → In c m.neighbors → In c n.neighbors)
      × (n.var_name ≡ a → In b n.neighbors)
unfolding add_neighbor
add_neighbor-node a b [] n m = absurd m
add_neighbor-node a b (x ∷ xs) n (inr m) =
    let (k, in_, name, more, new) = add_neighbor-node a b xs n m in (k, inr in_, name, more, new)
add_neighbor-node a b (x ∷ xs) n (inl e) = elim (Bool-cases (str_eq x.var_name a)) [
  | inl here ↦
      let e' : n ≡ record x { neighbors = insert_name b x.neighbors } = rw here at e in
      let ns : n.neighbors ≡ insert_name b x.neighbors = ap (λ (k : Node). k.neighbors) e' in
      (
        x,
        inl refl,
        ap (λ (k : Node). k.var_name) e',
        λ c m. subst (In c) (sym ns) (In_insert_name b c x.neighbors m),
        λ named. subst (In b) (sym ns) (In-insert_name b x.neighbors),
      )
  | inr there ↦
      let e' : n ≡ x = rw there at e in
      (
        x,
        inl refl,
        ap (λ (k : Node). k.var_name) e',
        λ c m. subst (In c) (sym (ap (λ (k : Node). k.neighbors) e')) m,
        λ named. absurd (
            let t : str_eq x.var_name a ≡ true =
              (eq_iff x.var_name a).1 (sym (ap (λ (k : Node). k.var_name) e') ∙ named) in
            cc),
      )
]

Near-add_neighbor : (a b : String) (g : List Node) → Near a b (add_neighbor a b g)
Near-add_neighbor a b g = record {
  near = λ n m named. let (k, in_, name, more, new) = add_neighbor-node a b g n m in new named;
}

Near_add_neighbor : (a b c d : String) (g : List Node) → Near a b g → Near a b (add_neighbor c d g)
Near_add_neighbor a b c d g h = record {
  near = λ n m named.
      let (k, in_, name, more, new) = add_neighbor-node c d g n m in
      more b (h.near k in_ (sym name ∙ named));
}

-- Both names are each other's neighbours.
pub record Linked (a b : String) (g : List Node) : Type 0 where
  pub there : Near a b g
  pub back : Near b a g

Linked-link :
    (x y : LiveInterval) (g : List Node)
    → overlaps x y ≡ true
    → Linked x.var_name y.var_name (link x y g)
unfolding link
Linked-link x y g h =
    rw (h, link)
      (record {
        there =
            Near_add_neighbor x.var_name y.var_name y.var_name x.var_name _
              (Near-add_neighbor x.var_name y.var_name g);
        back = Near-add_neighbor y.var_name x.var_name _;
      })

Linked-link_kept :
    (a b : String) (x y : LiveInterval) (g : List Node) → Linked a b g → Linked a b (link x y g)
unfolding link
Linked-link_kept a b x y g h = elim (Bool-cases (overlaps x y)) [
  | inr apart ↦ rw (apart, link) h
  | inl meet ↦
      rw (meet, link)
        (record {
          there = Near_add_neighbor a b _ _ _ (Near_add_neighbor a b _ _ g h.there);
          back = Near_add_neighbor b a _ _ _ (Near_add_neighbor b a _ _ g h.back);
        })
]

Linked-link_with_kept :
    (a b : String) (x : LiveInterval) (ys : List LiveInterval) (g : List Node)
    → Linked a b g
    → Linked a b (link_with x ys g)
unfolding link_with
Linked-link_with_kept a b x [] g h = h
Linked-link_with_kept a b x (y ∷ ys) g h =
    Linked-link_with_kept a b x ys (link x y g) (Linked-link_kept a b x y g h)

Linked-link_all_kept :
    (a b : String) (xs : List LiveInterval) (g : List Node)
    → Linked a b g
    → Linked a b (link_all xs g)
unfolding link_all
Linked-link_all_kept a b [] g h = h
Linked-link_all_kept a b (x ∷ xs) g h =
    Linked-link_all_kept a b xs (link_with x xs g) (Linked-link_with_kept a b x xs g h)

Linked-link_with :
    (x y : LiveInterval) (ys : List LiveInterval) (g : List Node)
    → In y ys
    → overlaps x y ≡ true
    → Linked x.var_name y.var_name (link_with x ys g)
unfolding link_with
Linked-link_with x y [] g m h = absurd m
Linked-link_with x y (z ∷ zs) g (inl e) h = Linked-link_with_kept _ _ x zs (link x z g) (
    subst (λ (k : LiveInterval). Linked x.var_name y.var_name (link x k g)) e (Linked-link x y g h))
Linked-link_with x y (z ∷ zs) g (inr m) h = Linked-link_with x y zs (link x z g) m h

overlaps-sym : (x y : LiveInterval) → overlaps x y ≡ true → overlaps y x ≡ true
overlaps-sym x y h = ground (arith, h)

pub Linked-link_all :
    (x y : LiveInterval) (is : List LiveInterval) (g : List Node)
    → In x is
    → In y is
    → x.var_name ≢ y.var_name
    → overlaps x y ≡ true
    → Linked x.var_name y.var_name (link_all is g)
unfolding link_all
Linked-link_all x y [] g mx my other h = absurd mx
Linked-link_all x y (i ∷ is) g (inl ex) (inl ey) other h =
    absurd (other (ap (λ (k : LiveInterval). k.var_name) (ex ∙ sym ey)))
Linked-link_all x y (i ∷ is) g (inl ex) (inr my) other h =
    Linked-link_all_kept _ _ is (link_with i is g) (
      subst (λ (k : LiveInterval). Linked x.var_name y.var_name (link_with k is g)) ex
        (Linked-link_with x y is g my h))
Linked-link_all x y (i ∷ is) g (inr mx) (inl ey) other h =
    let l = Linked-link_all_kept _ _ is (link_with i is g) (
      subst (λ (k : LiveInterval). Linked y.var_name x.var_name (link_with k is g)) ey
        (Linked-link_with y x is g mx (overlaps-sym x y h))) in
    record { there = l.back; back = l.there }
Linked-link_all x y (i ∷ is) g (inr mx) (inr my) other h =
    Linked-link_all x y is (link_with i is g) mx my other h
