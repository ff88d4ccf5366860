-- ===== src/Store/Gc/Marks.antt =====
-- store/gc.rs: the mark bitmap.
use submilli_wasm.Base.{
  ℕ, ◌+◌, ◌/◌, ◌%◌, ◌≤◌, ◌<◌, ◌≡◌, ◌≢◌, refl, sym, ap, ◌∙◌, Option, none, some, Bool, true, false,
  List, ltb, length, get_elem?, set, resize, arith, length-set, get_elem?-set_self, length-resize,
  length-replicate, get_elem?-set_ne, get_elem?-some, get_elem?_none, get_elem?-resize_old,
  get_elem?-resize_new, get_elem?-replicate, lt_of_get, ℕ_discrete, dec_lt, subst, Every, Every-set,
  if_cases, ltb→lt, ltb→ge, lt→ltb,
}
use submilli_wasm.Store.Gc.{
  GcObject, GcHeap, no_bits, bit_in, bit_at, or_bit, is_marked, room_for, set_bit, object, mark,
}

abbrev pub Words : List (List Bool) → Type 0
Words marks = Every (λ w. length w ≡ 64) marks

abbrev pub bit_of : List (List Bool) → ℕ → Bool
bit_of marks i = bit_at (get_elem? marks (i / 64)) (i % 64)

word_of : {o : Option (List Bool)} {w w' : List Bool} → o ≡ some w → o ≡ some w' → w ≡ w'
word_of e e' = cc

no_bit : (i : ℕ) → i < 64 → bit_at (some no_bits) i ≡ false
no_bit i h = ap bit_in (get_elem?-replicate 64 i false h)

bit_of_new :
    (marks : List (List Bool)) (n w i : ℕ)
    → length marks ≤ n
    → i < 64
    → bit_at (get_elem? (resize marks n no_bits) w) i ≡ bit_at (get_elem? marks w) i
bit_of_new marks n w i h lt = elim (dec_lt w (length marks)) [
  | yes old ↦ rw (get_elem?-resize_old marks n no_bits w h old) refl
  | no past ↦
      let before : get_elem? marks w ≡ none = get_elem?_none marks w (omega arith) in
      elim (dec_lt w n) [
        | yes new ↦
            rw (get_elem?-resize_new marks n no_bits w (omega arith) new, before) (no_bit i lt)
        | no out ↦
            rw
              (
                get_elem?_none (resize marks n no_bits) w
                    (omega (arith, length-resize marks n no_bits)),
                before,
              )
              refl
      ]
]

resize-Words :
    (marks : List (List Bool)) (n : ℕ)
    → length marks ≤ n
    → Words marks
    → Words (resize marks n no_bits)
resize-Words marks n h good w bits e = elim (dec_lt w (length marks)) [
  | yes old ↦ good w bits (sym (get_elem?-resize_old marks n no_bits w h old) ∙ e)
  | no past ↦
      let lt : w < n =
        omega (arith, lt_of_get (resize marks n no_bits) w e, length-resize marks n no_bits) in
      ap length (word_of e (get_elem?-resize_new marks n no_bits w (omega arith) lt))
      ∙ length-replicate 64 false
]

-- What making room leaves.
record Roomy (word : ℕ) (marks marks' : List (List Bool)) : Type 0 where
  words : Words marks'
  there : word < length marks'
  same : (j : ℕ) → bit_of marks' j ≡ bit_of marks j

room_for-Roomy :
    (word : ℕ) (marks : List (List Bool)) → Words marks → Roomy word marks (room_for word marks)
room_for-Roomy word marks good =
    if_cases (Roomy word marks) (ltb word (length marks))
      (λ h. record { words = good; there = ltb→lt word (length marks) h; same = λ j. refl })
      (λ h.
        let le : length marks ≤ word + 1 = omega (arith, ltb→ge word (length marks) h) in
        record {
          words = resize-Words marks (word + 1) le good;
          there = omega (arith, length-resize marks (word + 1) no_bits);
          same = λ j. bit_of_new marks (word + 1) (j / 64) (j % 64) le (omega arith);
        })

-- A newly set bit, in a bitmap that has room for it.
record Marked (i : ℕ) (marks marks' : List (List Bool)) : Type 0 where
  words : Words marks'
  now : bit_of marks' i ≡ true
  others : (j : ℕ) → j ≢ i → bit_of marks' j ≡ bit_of marks j

set-Marked :
    (marks : List (List Bool)) (i : ℕ) (bits : List Bool)
    → Words marks
    → get_elem? marks (i / 64) ≡ some bits
    → Marked i marks (set marks (i / 64) (set bits (i % 64) true))
set-Marked marks i bits good held =
    let lt : i / 64 < length marks = lt_of_get marks (i / 64) held in
    let full : length bits ≡ 64 = good (i / 64) bits held in
    let bits' : List Bool = set bits (i % 64) true in
    let new : get_elem? (set marks (i / 64) bits') (i / 64) ≡ some bits' =
      get_elem?-set_self marks (i / 64) bits' lt in
    record {
      words =
          Every-set (λ w. length w ≡ 64) marks (i / 64) bits' good
            (length-set bits (i % 64) true ∙ full);
      now =
          ap (λ o. bit_at o (i % 64)) new
          ∙ ap bit_in (get_elem?-set_self bits (i % 64) true (omega arith));
      others = λ j ne. elim (ℕ_discrete (i / 64) (j / 64)) [
        | yes q ↦
            let other : i % 64 ≢ j % 64 = λ r. ne (omega arith) in
            subst
              (λ k.
                bit_at (get_elem? (set marks (i / 64) bits') k) (j % 64)
                ≡ bit_at (get_elem? marks k) (j % 64))
              q
              (ap (λ o. bit_at o (j % 64)) new
                ∙ (ap bit_in (get_elem?-set_ne bits (i % 64) (j % 64) true other)
                    ∙ ap (λ o. bit_at o (j % 64)) (sym held)))
        | no apart ↦
            ap (λ o. bit_at o (j % 64)) (get_elem?-set_ne marks (i / 64) (j / 64) bits' apart)
      ];
    }

set_bit-Marked :
    (marks : List (List Bool)) (i : ℕ)
    → Words marks
    → i / 64 < length marks
    → Marked i marks (set_bit (i / 64) (i % 64) marks)
set_bit-Marked marks i good lt =
    let (bits, held) = get_elem?-some marks (i / 64) lt in
    subst (λ o. Marked i marks (or_bit o (i / 64) (i % 64) marks)) (sym held)
      (set-Marked marks i bits good held)

-- A mark that is there already changes nothing.
pub mark_again :
    (i : ℕ) (h : GcHeap) (o : GcObject)
    → object h i ≡ some o
    → is_marked h i ≡ true
    → mark i h ≡ (h, false)
unfolding mark is_marked
mark_again i h o live old =
    let there : ltb (i / 64) (length h.marks) ≡ true = elim (dec_lt (i / 64) (length h.marks)) [
      | yes lt ↦ lt→ltb (i / 64) (length h.marks) lt
      | no past ↦ absurd (
          let out : get_elem? h.marks (i / 64) ≡ none =
            get_elem?_none h.marks (i / 64) (omega arith) in
          let off : bit_at (get_elem? h.marks (i / 64)) (i % 64) ≡ false =
            ap (λ o. bit_at o (i % 64)) out in
          cc)
    ] in
    rw (mark, live, there, old) refl

-- The first mark of a live object sets its bit and no other.
pub mark_fresh :
    (i : ℕ) (h : GcHeap) (o : GcObject)
    → object h i ≡ some o
    → Words h.marks
    → is_marked h i ≡ false
    → (marks : List (List Bool)) × ((mark i h ≡ (record h { marks = marks }, true))
        × (Words marks
            × ((bit_of marks i ≡ true) × ((j : ℕ) → j ≢ i → bit_of marks j ≡ bit_of h.marks j))))
unfolding mark is_marked
mark_fresh i h o live good new =
    let roomy : Roomy (i / 64) h.marks (room_for (i / 64) h.marks) =
      room_for-Roomy (i / 64) h.marks good in
    let off : bit_of (room_for (i / 64) h.marks) i ≡ false = roomy.same i ∙ new in
    let m : Marked i (room_for (i / 64) h.marks)
        (set_bit (i / 64) (i % 64) (room_for (i / 64) h.marks)) =
      set_bit-Marked (room_for (i / 64) h.marks) i roomy.words roomy.there in
    (
      set_bit (i / 64) (i % 64) (room_for (i / 64) h.marks),
      (rw (mark, live, off) refl, (m.words, (m.now, λ j ne. m.others j ne ∙ roomy.same j))),
    )

pub is_marked-bit_of : (h : GcHeap) (i : ℕ) → is_marked h i ≡ bit_of h.marks i
unfolding is_marked
is_marked-bit_of h i = refl
