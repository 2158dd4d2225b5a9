-- ===== src/Dex/Override/Laws.antt =====
-- About `Override` of parser/dex/dto.go.
use cosmwasm_etl.Prelude.{
  ◌≡◌, refl, String, eq_iff, arith, none, Bool, true, false, not, ◌&&◌, ◌==◌, eqb,
}
use cosmwasm_etl.Prelude.Int.{ℤ, pos, negsuc, ltb_ℤ}
use cosmwasm_etl.Dex.Types.{Time, zero_time, no_asset, Asset, ParsedTx, empty_tx}
use cosmwasm_etl.Dex.Override.{text_or, time_or, index_or, asset_or, override}

text_or_assoc : (a b c : String) → text_or (text_or a b) c ≡ text_or a (text_or b c)
text_or_assoc a b c = ground (arith, eq_iff c "", eq_iff b "")

time_or_assoc : (a b c : Time) → time_or (time_or a b) c ≡ time_or a (time_or b c)
time_or_assoc a b c = ground arith

index_or_assoc : (a b c : ℤ) → index_or (index_or a b) c ≡ index_or a (index_or b c)
index_or_assoc a b c = ground arith

asset_or_assoc : (a b c : Asset) → asset_or (asset_or a b) c ≡ asset_or a (asset_or b c)
asset_or_assoc a b c = λ i. record {
  addr = text_or_assoc a.addr b.addr c.addr i;
  amount = text_or_assoc a.amount b.amount c.amount i;
}

-- The fields that are no map.
abbrev pub plain : ParsedTx → ParsedTx
plain tx = record tx { meta = none }

override_assoc :
    (a b c : ParsedTx) → plain (override (override a b) c) ≡ plain (override a (override b c))
unfolding override
override_assoc a b c = λ i. record {
  hash = text_or_assoc a.hash b.hash c.hash i;
  timestamp = time_or_assoc a.timestamp b.timestamp c.timestamp i;
  kind = text_or_assoc a.kind b.kind c.kind i;
  sender = text_or_assoc a.sender b.sender c.sender i;
  contract_addr = text_or_assoc a.contract_addr b.contract_addr c.contract_addr i;
  assets = record {
    first = asset_or_assoc a.assets.first b.assets.first c.assets.first i;
    second = asset_or_assoc a.assets.second b.assets.second c.assets.second i;
  };
  lp_addr = text_or_assoc a.lp_addr b.lp_addr c.lp_addr i;
  lp_amount = text_or_assoc a.lp_amount b.lp_amount c.lp_amount i;
  commission_amount = text_or_assoc a.commission_amount b.commission_amount c.commission_amount i;
  msg_index = index_or_assoc a.msg_index b.msg_index c.msg_index i;
  meta = none;
}

text_or_none : (a : String) → text_or "" a ≡ a
text_or_none a = ground (arith, eq_iff a "")

time_or_none : (t : Time) → time_or zero_time t ≡ t
time_or_none t = ground arith

index_or_none : (z : ℤ) → ltb_ℤ z (pos 0) ≡ false → index_or (pos 0) z ≡ z
index_or_none (pos n) h = ground arith
index_or_none (negsuc n) h = ground (arith, h)

asset_or_none : (a : Asset) → asset_or no_asset a ≡ a
asset_or_none a = λ i. record { addr = text_or_none a.addr i; amount = text_or_none a.amount i }

override_none :
    (b : ParsedTx) → ltb_ℤ b.msg_index (pos 0) ≡ false → plain (override empty_tx b) ≡ plain b
unfolding override
override_none b h = λ i. record {
  hash = text_or_none b.hash i;
  timestamp = time_or_none b.timestamp i;
  kind = text_or_none b.kind i;
  sender = text_or_none b.sender i;
  contract_addr = text_or_none b.contract_addr i;
  assets = record {
    first = asset_or_none b.assets.first i;
    second = asset_or_none b.assets.second i;
  };
  lp_addr = text_or_none b.lp_addr i;
  lp_amount = text_or_none b.lp_amount i;
  commission_amount = text_or_none b.commission_amount i;
  msg_index = index_or_none b.msg_index h i;
  meta = none;
}

abbrev asset_set : Asset → Bool
asset_set a = not (a.addr == "") && not (a.amount == "")

-- Every field but `Meta` is set.
abbrev pub all_set : ParsedTx → Bool
all_set tx =
    not (tx.hash == "")
    && not (eqb tx.timestamp zero_time)
    && not (tx.kind == "")
    && not (tx.sender == "")
    && not (tx.contract_addr == "")
    && (asset_set tx.assets.first && asset_set tx.assets.second)
    && not (tx.lp_addr == "")
    && not (tx.lp_amount == "")
    && not (tx.commission_amount == "")
    && ltb_ℤ (pos 0) tx.msg_index

not_set : (b : Bool) → not b ≡ true → b ≡ false
not_set true h = cc
not_set false h = refl

both : (b c : Bool) → (b && c) ≡ true → (b ≡ true) × (c ≡ true)
both true c h = (refl, h)
both false c h = absurd cc

text_or_set : (a b : String) → not (b == "") ≡ true → text_or a b ≡ b
text_or_set a b h = rw (not_set (b == "") h) refl

asset_or_set : (a b : Asset) → asset_set b ≡ true → asset_or a b ≡ b
asset_or_set a b h =
    let (addr, amount) = both _ _ h in
    λ i. record {
      addr = text_or_set a.addr b.addr addr i;
      amount = text_or_set a.amount b.amount amount i;
    }

override_set : (a b : ParsedTx) → all_set b ≡ true → plain (override a b) ≡ plain b
unfolding override
override_set a b h =
    let (h9, index) = both _ _ h in
    let (h8, commission) = both _ _ h9 in
    let (h7, lp_amount) = both _ _ h8 in
    let (h6, lp_addr) = both _ _ h7 in
    let (h5, assets) = both _ _ h6 in
    let (first, second) = both _ _ assets in
    let (h4, contract) = both _ _ h5 in
    let (h3, sender) = both _ _ h4 in
    let (h2, kind) = both _ _ h3 in
    let (hash, time) = both _ _ h2 in
    let at : time_or a.timestamp b.timestamp ≡ b.timestamp =
      rw (not_set (eqb b.timestamp zero_time) time) refl in
    let index' : index_or a.msg_index b.msg_index ≡ b.msg_index = rw (index) refl in
    λ i. record {
      hash = text_or_set a.hash b.hash hash i;
      timestamp = at i;
      kind = text_or_set a.kind b.kind kind i;
      sender = text_or_set a.sender b.sender sender i;
      contract_addr = text_or_set a.contract_addr b.contract_addr contract i;
      assets = record {
        first = asset_or_set a.assets.first b.assets.first first i;
        second = asset_or_set a.assets.second b.assets.second second i;
      };
      lp_addr = text_or_set a.lp_addr b.lp_addr lp_addr i;
      lp_amount = text_or_set a.lp_amount b.lp_amount lp_amount i;
      commission_amount = text_or_set a.commission_amount b.commission_amount commission i;
      msg_index = index' i;
      meta = none;
    }

-- In every field but `Meta`: overriding by a transaction that was itself overridden is overriding twice;
-- a transaction without a negative message index overrides the empty one by all that it sets; and one
-- that sets every field replaces the default. Overriding by the empty transaction changes nothing, in
-- `Meta` neither.
pub override_laws :
    (a b c d : ParsedTx)
    → ltb_ℤ c.msg_index (pos 0) ≡ false
    → all_set d ≡ true
    → (plain (override (override a b) c) ≡ plain (override a (override b c)))
      × (override a empty_tx ≡ a)
      × (plain (override empty_tx c) ≡ plain c)
      × (plain (override a d) ≡ plain d)
override_laws a b c d index full =
    (override_assoc a b c, unfold override in refl, override_none c index, override_set a d full)
