-- ===== src/ByteStream/Queue.antt =====
-- shared/bytestream.go as a queue of bytes, `unread`.
use x_pipeline.Prelude.{
  ℕ, zero, suc, ◌+◌, ◌-◌, ◌≤◌, ◌<◌, true, [], ◌∷◌, ◌++◌, Bytes, length, take, drop, replicate, ltb,
  leb, ltb→lt, ◌≡◌, ◌↔◌, refl, ap, arith, ◌∙◌, sym, length-append, length-take, length-drop,
  length-replicate, take-append-drop, take-length_append, take_all, append-nil, append_assoc,
  Bool-cases, inl, inr,
}
use x_pipeline.Prelude.Pieces.{take-append_le, drop-append_le, piece, piece-split, drop-take}
use x_pipeline.ByteStream.{ByteStream, set_capacity, put, write, read, unread, written}

pub record IsValid (s : ByteStream) : Type 0 where
  pub read_write : s.read_offset ≤ s.write_offset
  pub write_store : s.write_offset ≤ length s.store

take-take_append : (n : ℕ) (xs ys : Bytes) → n ≤ length xs → take n (take n xs ++ ys) ≡ take n xs
take-take_append n xs ys h =
    let size : length (take n xs) ≡ n = omega (arith, length-take n xs) in
    ap (λ (k : ℕ). take k (take n xs ++ ys)) (sym size) ∙ take-length_append (take n xs) ys

set_capacity-written :
    (s : ByteStream) (n : ℕ)
    → IsValid s
    → (written (set_capacity s n) ≡ written s)
      × IsValid (set_capacity s n)
      × (n ≤ length (set_capacity s n).store)
      × ((set_capacity s n).write_offset ≡ s.write_offset)
      × ((set_capacity s n).read_offset ≡ s.read_offset)
unfolding set_capacity
set_capacity-written s n v = elim (Bool-cases (ltb (length s.store) n)) [
  | inr enough ↦ rw enough (refl, v, ground arith, refl, refl)
  | inl grows ↦
      let more : length s.store < n = ltb→lt (length s.store) n grows in
      let size : length (take s.write_offset s.store ++ replicate (n - s.write_offset) 0) ≡ n =
        omega (
          arith,
          length-append (take s.write_offset s.store) (replicate (n - s.write_offset) 0),
          length-take s.write_offset s.store,
          length-replicate {A = ℕ} (n - s.write_offset) 0,
          v.write_store,
        ) in
      rw grows (
        take-take_append s.write_offset s.store (replicate (n - s.write_offset) 0) v.write_store,
        record { read_write = v.read_write; write_store = omega (arith, size, v.write_store) },
        omega (arith, size),
        refl,
        refl,
      )
]

put-written :
    (s : ByteStream) (source : Bytes)
    → IsValid s
    → s.write_offset + length source ≤ length s.store
    → (written (put s source) ≡ written s ++ source) × IsValid (put s source)
unfolding put
put-written s source v fits =
    let behind = drop (s.write_offset + length source) s.store in
    let front = take s.write_offset s.store in
    let room : length source ≤ length s.store - s.write_offset = omega arith in
    let whole : take (length s.store - s.write_offset) source ≡ source =
      take_all source (length s.store - s.write_offset) room in
    let size : length (front ++ source) ≡ s.write_offset + length source =
      omega
        (arith, length-append front source, length-take s.write_offset s.store, v.write_store) in
    let total : length (front ++ (source ++ behind)) ≡ length s.store = omega (
      arith,
      length-append front (source ++ behind),
      length-append source behind,
      length-take s.write_offset s.store,
      length-drop (s.write_offset + length source) s.store,
      v.write_store,
    ) in
    rw whole (
      ap (λ (ys : Bytes). take (s.write_offset + length source) ys)
            (sym (append_assoc front source behind))
          ∙ ap (λ (k : ℕ). take k ((front ++ source) ++ behind)) (sym size)
          ∙ take-length_append (front ++ source) behind,
      record { read_write = omega (arith, v.read_write); write_store = omega (arith, total) },
    )

-- On a stream whose offsets are in order, `Write` appends the source to the bytes written so far,
-- growing the store where it is too small, and keeps the offsets in order.
pub write-written :
    (s : ByteStream) (source : Bytes)
    → IsValid s
    → (written (write s source) ≡ written s ++ source) × IsValid (write s source)
unfolding write
write-written s [] v = (sym (append-nil (written s)), v)
write-written s (x ∷ source) v =
    let (same, valid, room, at, from) =
      set_capacity-written s (s.write_offset + length (x ∷ source)) v in
    let (w, ok) =
      put-written (set_capacity s (s.write_offset + length (x ∷ source))) (x ∷ source) valid
        (omega (arith, at, room)) in
    (w ∙ ap (λ (ys : Bytes). ys ++ (x ∷ source)) same, ok)

unread-written : (s : ByteStream) → IsValid s → unread s ≡ drop s.read_offset (written s)
unread-written s v = sym (drop-take s.read_offset s.write_offset s.store v.read_write)

write-read_offset :
    (s : ByteStream) (source : Bytes) → IsValid s → (write s source).read_offset ≡ s.read_offset
unfolding write put
write-read_offset s [] v = refl
write-read_offset s (x ∷ source) v =
    let (same, valid, room, at, from) =
      set_capacity-written s (s.write_offset + length (x ∷ source)) v in
    from

-- `Write` puts the source behind what is still to be read.
pub write-unread :
    (s : ByteStream) (source : Bytes) → IsValid s → unread (write s source) ≡ unread s ++ source
write-unread s source v =
    let (w, ok) = write-written s source v in
    let size : s.read_offset ≤ length (written s) =
      omega (arith, length-take s.write_offset s.store, v.write_store, v.read_write) in
    unread-written (write s source) ok
    ∙ ap (λ (k : ℕ). drop k (written (write s source))) (write-read_offset s source v)
    ∙ ap (λ (ys : Bytes). drop s.read_offset ys) w
    ∙ drop-append_le s.read_offset (written s) source size
    ∙ ap (λ (ys : Bytes). ys ++ source) (sym (unread-written s v))

leb→le : (a b : ℕ) → leb a b ≡ true → a ≤ b
leb→le a b e = ground arith

le→leb : (a b : ℕ) → a ≤ b → leb a b ≡ true
le→leb a b h = ground arith

take_nil : (n : ℕ) → take {A = ℕ} n [] ≡ []
take_nil zero = refl
take_nil (suc n) = refl

length_zero : (xs : Bytes) → length xs ≡ 0 → xs ≡ []
length_zero [] e = refl
length_zero (x ∷ xs) e = absurd (omega arith)

-- The bytes that are copied are those between the old and the new read offset.
copied-piece :
    (s : ByteStream) (n : ℕ)
    → take n (unread s) ≡ piece s.read_offset (s.read_offset + length (take n (unread s))) s.store
copied-piece s n =
    let u = unread s in
    let c = take n u in
    let rest = drop (s.write_offset - s.read_offset) (drop s.read_offset s.store) in
    let fits : length c ≤ length u = omega (arith, length-take n u) in
    let width : s.read_offset + length c - s.read_offset ≡ length c = omega arith in
    sym (take-length_append c (drop n u))
    ∙ ap (λ (ys : Bytes). take (length c) ys) (take-append-drop n u)
    ∙ sym (take-append_le (length c) u rest fits)
    ∙ ap (λ (ys : Bytes). take (length c) ys)
        (take-append-drop (s.write_offset - s.read_offset) (drop s.read_offset s.store))
    ∙ ap (λ (k : ℕ). take k (drop s.read_offset s.store)) (sym width)

-- `Read` into n bytes copies the front of what is unread, as much as fits, and the rest stays
-- unread; it returns io.EOF exactly if nothing is left. Offsets in order stay so.
pub read-unread :
    (s : ByteStream) (n : ℕ)
    → IsValid s
    → let (s', copied, eof) = read s n in
      (copied ≡ take n (unread s))
      × (unread s ≡ copied ++ unread s')
      × ((eof ≡ true) ↔ (unread s' ≡ []))
      × IsValid s'
unfolding read
read-unread s n v = elim (Bool-cases (leb s.write_offset s.read_offset)) [
  | inl all_read ↦
      let none_left : unread s ≡ [] = length_zero (unread s) (
        omega (
          arith,
          length-take (s.write_offset - s.read_offset) (drop s.read_offset s.store),
          leb→le s.write_offset s.read_offset all_read,
        )) in
      rw all_read (
        sym (take_nil n) ∙ ap (λ (ys : Bytes). take n ys) (sym none_left),
        refl,
        ((λ e. none_left), λ e. refl),
        v,
      )
  | inr some_left ↦
      let copied = take n (unread s) in
      let bound : length copied ≤ s.write_offset - s.read_offset = omega (
        arith,
        length-take n (unread s),
        length-take (s.write_offset - s.read_offset) (drop s.read_offset s.store),
      ) in
      let s' = record s { read_offset = s.read_offset + length copied } in
      let left : length (unread s') ≡ s.write_offset - (s.read_offset + length copied) = omega (
        arith,
        length-take (s.write_offset - (s.read_offset + length copied))
            (drop (s.read_offset + length copied) s.store),
        length-drop (s.read_offset + length copied) s.store,
        v.write_store,
        v.read_write,
      ) in
      rw some_left (
        refl,
        piece-split s.read_offset (s.read_offset + length copied) s.write_offset s.store
              (omega arith) (omega (arith, v.read_write, bound))
            ∙ ap (λ (ys : Bytes). ys ++ unread s') (sym (copied-piece s n)),
        (
          (λ e.
              length_zero (unread s')
                (omega (arith, left, leb→le s.write_offset (s.read_offset + length copied) e))),
          (λ e.
              let none_left : length (unread s') ≡ 0 = ap (λ (ys : Bytes). length ys) e in
              le→leb s.write_offset (s.read_offset + length copied)
                (omega (arith, left, none_left))),
        ),
        record { read_write = omega (arith, v.read_write, bound); write_store = v.write_store },
      )
]
