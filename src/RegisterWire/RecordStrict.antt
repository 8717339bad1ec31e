-- ===== src/RegisterWire/RecordStrict.antt =====
-- What TryDecodeRecord of src/RegisterWire.cpp accepts, against EncodeRecord.
use clipp.Prelude.{
  ℕ, ◌^◌, ◌%◌, ◌≤◌, ◌≡◌, sym, subst, ap, ◌∙◌, some, [], ◌∷◌, ◌++◌, leb, ◌==◌, ==_iff, length, arith,
  >>=-eq-some, guard, is_empty, append_assoc, append-nil,
}
use clipp.Bytes.{Bytes, AllBytes, put_u16, put_u32, read_u8, read_u32, read_string}
use clipp.Bytes.Inverse.{read_string-inv, read_u8-inv, read_u32-inv}
use clipp.Clock.{IsHlc}
use clipp.Register.{RegisterRecord}
use clipp.RegisterWire.{
  FitsFrame, version, put_hlc, read_hlc, read_host_id, host_id_size, read_short, max_name_len,
  max_value_len, encode_record, try_decode_record, RecordHead, read_head, Stamps, read_stamps,
  read_value,
}
use clipp.RegisterWire.Strict.{
  Parsed, guard-inv, is_empty-inv, read_hlc-inv, read_host_id-inv, read_short-inv,
}

-- A frame with another reserved byte, the fourth.
abbrev pub set_reserved : ℕ → Bytes → Bytes
set_reserved x (a ∷ b ∷ c ∷ d ∷ rest) = a ∷ b ∷ c ∷ x ∷ rest
set_reserved x bs = bs

abbrev put_head : RecordHead → Bytes
put_head h = version ∷ h.flags ∷ h.transport ∷ h.reserved ∷ []

-- Reads are followed by an equation between the pair that is returned and the one that is expected.
read_head-inv :
    (bs : Bytes) (h : RecordHead) (rest : Bytes)
    → AllBytes bs
    → read_head bs ≡ some (h, rest)
    → Parsed (put_head h) bs rest
unfolding read_head
read_head-inv bs h rest a e =
    let (p₁, q₁, e₁) = >>=-eq-some (read_u8 bs) _ e in
    let (_, g₁, e₂) = >>=-eq-some (guard (p₁.0 == version)) _ e₁ in
    let (p₂, q₂, e₃) = >>=-eq-some (read_u8 p₁.1) _ e₂ in
    let (p₃, q₃, e₄) = >>=-eq-some (read_u8 p₂.1) _ e₃ in
    let (p₄, q₄, e₅) = >>=-eq-some (read_u8 p₃.1) _ e₄ in
    let d₁ = read_u8-inv bs p₁.0 p₁.1 a q₁ in
    let d₂ = read_u8-inv p₁.1 p₂.0 p₂.1 d₁.rest_bytes q₂ in
    let d₃ = read_u8-inv p₂.1 p₃.0 p₃.1 d₂.rest_bytes q₃ in
    let d₄ = read_u8-inv p₃.1 p₄.0 p₄.1 d₃.rest_bytes q₄ in
    let v : p₁.0 ≡ version = (==_iff p₁.0 version).0 (guard-inv (p₁.0 == version) g₁) in
    record {
      whole = ground (arith, d₁.whole, d₂.whole, d₃.whole, d₄.whole, e₅, v);
      rest_bytes = subst AllBytes (ground (arith, e₅)) d₄.rest_bytes;
    }

join_three :
    (x y z b₃ : Bytes) {bs b₁ b₂ : Bytes}
    → bs ≡ x ++ b₁
    → b₁ ≡ y ++ b₂
    → b₂ ≡ z ++ b₃
    → bs ≡ (x ++ (y ++ z)) ++ b₃
join_three x y z b₃ e f g =
    e
    ∙ ap (λ t. x ++ t) (f ∙ ap (λ t. y ++ t) g ∙ sym (append_assoc y z b₃))
    ∙ sym (append_assoc x (y ++ z) b₃)

read_stamps-inv :
    (bs : Bytes) (s : Stamps) (rest : Bytes)
    → AllBytes bs
    → read_stamps bs ≡ some (s, rest)
    → Parsed (put_hlc s.written ++ (put_hlc s.touched ++ s.origin)) bs rest
      × IsHlc s.written
      × IsHlc s.touched
      × (length s.origin ≡ host_id_size)
unfolding read_stamps
read_stamps-inv bs s rest a e =
    let (p₁, q₁, e₁) = >>=-eq-some (read_hlc bs) _ e in
    let (p₂, q₂, e₂) = >>=-eq-some (read_hlc p₁.1) _ e₁ in
    let (p₃, q₃, e₃) = >>=-eq-some (read_host_id p₂.1) _ e₂ in
    let (d₁, v₁) = read_hlc-inv bs p₁.0 p₁.1 a q₁ in
    let (d₂, v₂) = read_hlc-inv p₁.1 p₂.0 p₂.1 d₁.rest_bytes q₂ in
    let (d₃, v₃) = read_host_id-inv p₂.1 p₃.0 p₃.1 d₂.rest_bytes q₃ in
    let w : p₁.0 ≡ s.written = ground (arith, e₃) in
    let t : p₂.0 ≡ s.touched = ground (arith, e₃) in
    let o : p₃.0 ≡ s.origin = ground (arith, e₃) in
    let r : p₃.1 ≡ rest = ground (arith, e₃) in
    (
      record {
        whole =
            join_three (put_hlc p₁.0) (put_hlc p₂.0) p₃.0 p₃.1 d₁.whole d₂.whole d₃.whole
            ∙ (λ i. (put_hlc (w i) ++ (put_hlc (t i) ++ o i)) ++ r i);
        rest_bytes = subst AllBytes r d₃.rest_bytes;
      },
      subst IsHlc w v₁,
      subst IsHlc t v₂,
      subst (λ z. length z ≡ host_id_size) o v₃,
    )

read_value-inv :
    (bs value : Bytes)
    → AllBytes bs
    → read_value bs ≡ some value
    → (bs ≡ put_u32 (length value % 2 ^ 32) ++ value) × (length value ≤ max_value_len)
unfolding read_value
read_value-inv bs value a e =
    let (p, q, e₁) = >>=-eq-some (read_u32 bs) _ e in
    let (_, g, e₂) = >>=-eq-some (guard (leb p.0 max_value_len)) _ e₁ in
    let (w, u, e₃) = >>=-eq-some (read_string p.0 p.1) _ e₂ in
    let (_, z, e₄) = >>=-eq-some (guard (is_empty w.1)) _ e₃ in
    let d = read_u32-inv bs p.0 p.1 a q in
    let s = read_string-inv p.0 p.1 w.0 w.1 d.rest_bytes u in
    let v : w.0 ≡ value = ground (arith, e₄) in
    let size : length value ≡ p.0 = subst (λ x. length x ≡ p.0) v s.size in
    let n : p.0 ≡ length value % 2 ^ 32 = omega (arith, d.below) in
    let end : w.1 ≡ [] = is_empty-inv w.1 (guard-inv (is_empty w.1) z) in
    (
      d.whole ∙ (λ i. put_u32 (n i) ++ (s.whole ∙ (λ j. v j ++ end j) ∙ append-nil value) i),
      ground (arith, guard-inv (leb p.0 max_value_len) g, size),
    )

abbrev assembled : RecordHead → Stamps → Bytes → Bytes → RegisterRecord
assembled h s name value = record {
  name = name;
  value = value;
  written = s.written;
  touched = s.touched;
  origin_host_id = s.origin;
  flags = h.flags;
}

frame_of :
    (h : RecordHead) (s : Stamps) (name value b₁ b₂ b₃ : Bytes) {body : Bytes}
    → body ≡ put_head h ++ b₁
    → b₁ ≡ (put_hlc s.written ++ (put_hlc s.touched ++ s.origin)) ++ b₂
    → b₂ ≡ (put_u16 (length name % 2 ^ 16) ++ name) ++ b₃
    → b₃ ≡ put_u32 (length value % 2 ^ 32) ++ value
    → body ≡ set_reserved h.reserved (encode_record (assembled h s name value) h.transport)
unfolding encode_record
frame_of h s name value b₁ b₂ b₃ e₁ e₂ e₃ e₄ = rw (e₁, e₂, e₃, e₄) (simp append_assoc)

-- What the decoder accepted is the frame of the record and transport flags that it returned, but for
-- the reserved byte, which is ignored; and the record fits a frame.
pub try_decode_record-inv :
    (body : Bytes) (r : RegisterRecord) (transport : ℕ)
    → AllBytes body
    → try_decode_record body ≡ some (r, transport)
    → (reserved : ℕ) × (body ≡ set_reserved reserved (encode_record r transport)) × FitsFrame r
unfolding try_decode_record encode_record
try_decode_record-inv body r transport a e =
    let (p₁, q₁, e₁) = >>=-eq-some (read_head body) _ e in
    let (p₂, q₂, e₂) = >>=-eq-some (read_stamps p₁.1) _ e₁ in
    let (p₃, q₃, e₃) = >>=-eq-some (read_short max_name_len p₂.1) _ e₂ in
    let (value, q₄, e₄) = >>=-eq-some (read_value p₃.1) _ e₃ in
    let d₁ = read_head-inv body p₁.0 p₁.1 a q₁ in
    let (d₂, w, t, o) = read_stamps-inv p₁.1 p₂.0 p₂.1 d₁.rest_bytes q₂ in
    let (d₃, n) = read_short-inv max_name_len p₂.1 p₃.0 p₃.1 d₂.rest_bytes q₃ in
    let (d₄, m) = read_value-inv p₃.1 value d₃.rest_bytes q₄ in
    let found = assembled p₁.0 p₂.0 p₃.0 value in
    let er : found ≡ r = ground (arith, e₄) in
    let et : p₁.0.transport ≡ transport = ground (arith, e₄) in
    (
      p₁.0.reserved,
      frame_of p₁.0 p₂.0 p₃.0 value p₁.1 p₂.1 p₃.1 d₁.whole d₂.whole d₃.whole d₄
          ∙ (λ i. set_reserved p₁.0.reserved (encode_record (er i) (et i))),
      subst FitsFrame er (record {
        written_fits = w;
        touched_fits = t;
        origin_size = o;
        name_fits = n;
        value_fits = m;
      }),
    )
