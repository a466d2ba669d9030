-- ===== src/Mux/Connection/Stream.antt =====
-- internal/mux/agent_mux.go: the bytes of one connection.
use awsocks.Prelude.{
  ℕ, ◌≤◌, ◌≡◌, refl, sym, ap, ◌∙◌, false, List, [], ◌∷◌, ◌++◌, inl, inr, ltb, length, take, drop,
  take-append-drop, append_assoc, append-nil, Bool-cases, Bytes, arith,
}
use awsocks.Mux.Connection.{MuxConn, read_conn, read_buffered, copy_out, push}

abbrev pub flatten : List Bytes → Bytes
flatten [] = []
flatten (b ∷ bs) = b ++ flatten bs

pub flatten-snoc : (bs : List Bytes) (b : Bytes) → flatten (bs ++ b ∷ []) ≡ flatten bs ++ b
flatten-snoc [] b = append-nil b
flatten-snoc (c ∷ bs) b = ap (◌++◌ c) (flatten-snoc bs b) ∙ sym (append_assoc c (flatten bs) b)

-- every byte that came into the connection
abbrev pub content : MuxConn → Bytes
content c = c.delivered ++ (c.remaining ++ flatten c.read_buf)

-- What a read keeps: its fields but for the bytes, the bytes together, and no more in the channel.
pub record Keeps (c c' : MuxConn) : Type 0 where
  pub same_id : c'.id ≡ c.id
  pub same_closed : c'.closed ≡ c.closed
  pub same_routed : c'.routed ≡ c.routed
  pub same_content : content c' ≡ content c
  pub no_longer : length c'.read_buf ≤ length c.read_buf

split_content :
    (n : ℕ) (front bytes back : Bytes)
    → (front ++ take n bytes) ++ (drop n bytes ++ back) ≡ front ++ (bytes ++ back)
split_content n front bytes back =
    append_assoc front (take n bytes) (drop n bytes ++ back)
    ∙ ap (◌++◌ front) (
        sym (append_assoc (take n bytes) (drop n bytes) back)
        ∙ ap (λ x. x ++ back) (take-append-drop n bytes))

read_buffered-Keeps :
    (n : ℕ) (bs : List Bytes) (c : MuxConn)
    → c.read_buf ≡ bs
    → c.remaining ≡ []
    → Keeps c (read_buffered n bs c).0
unfolding read_buffered copy_out
read_buffered-Keeps n [] c e r = record {
  same_id = refl;
  same_closed = refl;
  same_routed = refl;
  same_content = refl;
  no_longer = omega arith;
}
read_buffered-Keeps n (b ∷ bs) c e r = record {
  same_id = refl;
  same_closed = refl;
  same_routed = refl;
  same_content =
      split_content n c.delivered b (flatten bs)
      ∙ ap (◌++◌ c.delivered) (sym (ap (λ x. x ++ flatten c.read_buf) r ∙ ap flatten e));
  no_longer = omega (arith, ap length e);
}

empty : (xs : Bytes) → ltb 0 (length xs) ≡ false → xs ≡ []
empty [] e = refl
empty (x ∷ xs) e = ground (arith, e)

pub read_conn-Keeps : (n : ℕ) (c : MuxConn) → Keeps c (read_conn n c).0
unfolding read_conn copy_out
read_conn-Keeps n c = elim (Bool-cases (ltb 0 (length c.remaining))) [
  | inl left ↦ rw left (record {
    same_id = refl;
    same_closed = refl;
    same_routed = refl;
    same_content = split_content n c.delivered c.remaining (flatten c.read_buf);
    no_longer = omega arith;
  })
  | inr none_left ↦
      rw none_left (read_buffered-Keeps n c.read_buf c refl (empty c.remaining none_left))
]

pub push-content : (b : Bytes) (c : MuxConn) → content (push b c) ≡ content c ++ b
unfolding push
push-content b c =
    ap (λ x. c.delivered ++ (c.remaining ++ x)) (flatten-snoc c.read_buf b)
    ∙ ap (◌++◌ c.delivered) (sym (append_assoc c.remaining (flatten c.read_buf) b))
    ∙ sym (append_assoc c.delivered (c.remaining ++ flatten c.read_buf) b)
