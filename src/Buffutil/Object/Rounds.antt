-- ===== src/Buffutil/Object/Rounds.antt =====
-- utils/buffutil/parser.go: containers in their order, and one round of each loop that reads them.
use silvernode_go.Common.{
  ℕ, suc, ◌≡◌, refl, sym, ap, ◌∙◌, true, arith, if◌then◌else◌, Run, ret, panic, ◌>>=◌, Bytes,
  nat_eq, bytes_eq,
}
use silvernode_go.Buffutil.Value.{
  Value, Items, nil, cons, Fields, end, field, Entries, done, entry, append_item, assign_field,
  assign_entry, hashable,
}
use silvernode_go.Buffutil.Parser.{Parser, read_items, read_fields, read_entries, read_string}
use silvernode_go.Buffutil.Object.{snoc_field, snoc_entry, absent_field, absent_entry}

-- Containers in their order, one after the other.
abbrev pub then_items : Items → Items → Items
then_items nil vs = vs
then_items (cons w ws) vs = cons w (then_items ws vs)

abbrev pub then_fields : Fields → Fields → Fields
then_fields end fs = fs
then_fields (field j w gs) fs = field j w (then_fields gs fs)

abbrev pub then_entries : Entries → Entries → Entries
then_entries done es = es
then_entries (entry j w ds) es = entry j w (then_entries ds es)

then_items-nil : (vs : Items) → then_items vs nil ≡ vs
then_items-nil nil = refl
then_items-nil (cons v vs) = ap (cons v) (then_items-nil vs)

then_fields-end : (fs : Fields) → then_fields fs end ≡ fs
then_fields-end end = refl
then_fields-end (field k v fs) = ap (field k v) (then_fields-end fs)

then_entries-done : (es : Entries) → then_entries es done ≡ es
then_entries-done done = refl
then_entries-done (entry k v es) = ap (entry k v) (then_entries-done es)

pub then-append_item :
    (ws : Items) (v : Value) (vs : Items)
    → then_items (append_item ws v) vs ≡ then_items ws (cons v vs)
then-append_item nil v vs = refl
then-append_item (cons w ws) v vs = ap (cons w) (then-append_item ws v vs)

pub then-snoc_field :
    (gs : Fields) (k : Bytes) (v : Value) (fs : Fields)
    → then_fields (snoc_field gs k v) fs ≡ then_fields gs (field k v fs)
then-snoc_field end k v fs = refl
then-snoc_field (field j w gs) k v fs = ap (field j w) (then-snoc_field gs k v fs)

pub then-snoc_entry :
    (ds : Entries) (k v : Value) (es : Entries)
    → then_entries (snoc_entry ds k v) es ≡ then_entries ds (entry k v es)
then-snoc_entry done k v es = refl
then-snoc_entry (entry j w ds) k v es = ap (entry j w) (then-snoc_entry ds k v es)

pub assign_new_field :
    (k : Bytes) (v : Value) (gs : Fields)
    → absent_field k gs ≡ true
    → assign_field k v gs ≡ snoc_field gs k v
assign_new_field k v end h = refl
assign_new_field k v (field j w gs) h = ground (arith, assign_new_field k v gs)

pub assign_new_entry :
    (k v : Value) (ds : Entries)
    → absent_entry k ds ≡ true
    → assign_entry k v ds ≡ snoc_entry ds k v
unfolding assign_entry
assign_new_entry k v done h = refl
assign_new_entry k v (entry j w ds) h = ground (arith, assign_new_entry k v ds)

-- One round of each loop.
module _ (reader : Parser → Run (Value × Parser)) where
  pub items_end :
      (acc : Items) (p : Parser) → read_items reader 0 acc p ≡ ret (then_items acc nil, p)
  unfolding read_items
  items_end acc p = ap (λ (t : Items). ret (t, p)) (sym (then_items-nil acc))

  pub fields_end :
      (acc : Fields) (p : Parser) → read_fields reader 0 acc p ≡ ret (then_fields acc end, p)
  unfolding read_fields
  fields_end acc p = ap (λ (t : Fields). ret (t, p)) (sym (then_fields-end acc))

  pub entries_end :
      (acc : Entries) (p : Parser) → read_entries reader 0 acc p ≡ ret (then_entries acc done, p)
  unfolding read_entries
  entries_end acc p = ap (λ (t : Entries). ret (t, p)) (sym (then_entries-done acc))

  pub items_step :
      (n : ℕ) (acc : Items) (p : Parser) {q : Parser} {v : Value}
      → reader p ≡ ret (v, q)
      → read_items reader (suc n) acc p ≡ read_items reader n (append_item acc v) q
  unfolding read_items
  items_step n acc p e = ap (λ r. r >>= λ s. read_items reader n (append_item acc s.0) s.1) e

  pub fields_step :
      (n : ℕ) (acc : Fields) (p q : Parser) {q' : Parser} {k : Bytes} {v : Value}
      → read_string p ≡ (k, q)
      → reader q ≡ ret (v, q')
      → read_fields reader (suc n) acc p ≡ read_fields reader n (assign_field k v acc) q'
  unfolding read_fields
  fields_step n acc p q {k = k} d e =
      ap
        (λ (t : Bytes × Parser).
          reader t.1 >>= λ r. read_fields reader n (assign_field t.0 r.0 acc) r.1)
        d
      ∙ ap (λ r. r >>= λ s. read_fields reader n (assign_field k s.0 acc) s.1) e

  pub entries_step :
      (n : ℕ) (acc : Entries) (p q : Parser) {q' : Parser} {k v : Value}
      → reader p ≡ ret (k, q)
      → reader q ≡ ret (v, q')
      → hashable k ≡ true
      → read_entries reader (suc n) acc p ≡ read_entries reader n (assign_entry k v acc) q'
  unfolding read_entries
  entries_step n acc p q {k = k} {v = v} d e h =
      ap
        (λ r. r >>= λ j. reader j.1 >>= λ w.
          if hashable j.0 then read_entries reader n (assign_entry j.0 w.0 acc) w.1 else panic)
        d
      ∙ ap
          (λ r. r >>= λ w.
            if hashable k then read_entries reader n (assign_entry k w.0 acc) w.1 else panic)
          e
      ∙ rw h
