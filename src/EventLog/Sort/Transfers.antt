-- ===== src/EventLog/Sort/Transfers.antt =====
-- About `NormalizeTransferAttrs` of pkg/dex/logfinder.go, on logs of complete transfers.
use cosmwasm_etl.Prelude.{
  ℕ, ◌≡◌, refl, ap, ◌∙◌, String, List, [], ◌∷◌, ◌++◌, select, concat, map_list,
}
use mathlib.Core.List.{append_assoc, append-nil}
use cosmwasm_etl.Prelude.Int.{ℤ}
use cosmwasm_etl.Prelude.Dict.{Dict, empty, contains, lookup, insert}
use cosmwasm_etl.EventLog.Types.{Attribute, Attributes}
use cosmwasm_etl.EventLog.Error.{ok}
use cosmwasm_etl.EventLog.Sort.{
  sort_loop, fresh, finish, listed, order_from, normalize_transfer_attrs, transfer_keys, State,
}

-- The attributes of one transfer, and the order in which the chain emitted them.
pub data Order : Type 0 where
  ars asr ras rsa sar sra : Order

pub record Transfer : Type 0 where
  pub amount : String
  pub recipient : String
  pub sender : String
  pub msg_index : ℤ
  pub emitted : Order

module _ (t : Transfer) where
  abbrev pub amount_attr : Attribute
  amount_attr = record { key = "amount"; value = t.amount; msg_index = t.msg_index }

  abbrev pub recipient_attr : Attribute
  recipient_attr = record { key = "recipient"; value = t.recipient; msg_index = t.msg_index }

  abbrev pub sender_attr : Attribute
  sender_attr = record { key = "sender"; value = t.sender; msg_index = t.msg_index }

abbrev arrange : Order → Attribute → Attribute → Attribute → Attributes
arrange ars a r s = a ∷ r ∷ s ∷ []
arrange asr a r s = a ∷ s ∷ r ∷ []
arrange ras a r s = r ∷ a ∷ s ∷ []
arrange rsa a r s = r ∷ s ∷ a ∷ []
arrange sar a r s = s ∷ a ∷ r ∷ []
arrange sra a r s = s ∷ r ∷ a ∷ []

abbrev pub as_emitted : Transfer → Attributes
as_emitted t = arrange t.emitted (amount_attr t) (recipient_attr t) (sender_attr t)

abbrev pub as_wanted : Transfer → Attributes
as_wanted t = arrange ars (amount_attr t) (recipient_attr t) (sender_attr t)

abbrev transfer_order : Dict ℕ
transfer_order = order_from 0 empty transfer_keys

abbrev clean : Attributes → State
clean sorted = record { sorted = sorted; group = []; seen = empty }

module _ (av rv sv : String) (i : ℤ) (sorted rest : Attributes) where
  abbrev given : Order → Attributes
  given o =
      as_emitted (record { amount = av; recipient = rv; sender = sv; msg_index = i; emitted = o })

  abbrev wanted : Attributes
  wanted =
      as_wanted (record { amount = av; recipient = rv; sender = sv; msg_index = i; emitted = ars })

  -- Three attributes fill a group, which is sorted and closed.
  group_sorted :
      (o : Order)
      → sort_loop transfer_order 3 (clean sorted) (given o ++ rest)
        ≡ sort_loop transfer_order 3 (clean (sorted ++ wanted)) rest
  unfolding sort_loop order_from lookup insert contains empty
  group_sorted ars = refl
  group_sorted asr = refl
  group_sorted ras = refl
  group_sorted rsa = refl
  group_sorted sar = refl
  group_sorted sra = refl

  group_kept :
      (o : Order)
      → select (listed transfer_order) (given o ++ rest)
        ≡ given o ++ select (listed transfer_order) rest
  unfolding order_from lookup insert contains empty
  group_kept ars = refl
  group_kept asr = refl
  group_kept ras = refl
  group_kept rsa = refl
  group_kept sar = refl
  group_kept sra = refl

all_kept :
    (ts : List Transfer)
    → select (listed transfer_order) (concat (map_list as_emitted ts))
      ≡ concat (map_list as_emitted ts)
all_kept [] = refl
all_kept (t ∷ ts) =
    group_kept t.amount t.recipient t.sender t.msg_index [] (concat (map_list as_emitted ts))
      t.emitted
    ∙ ap (λ l. as_emitted t ++ l) (all_kept ts)

all_sorted :
    (sorted : Attributes) (ts : List Transfer)
    → sort_loop transfer_order 3 (clean sorted) (concat (map_list as_emitted ts))
      ≡ clean (sorted ++ concat (map_list as_wanted ts))
unfolding sort_loop
all_sorted sorted [] = rw append-nil refl
all_sorted sorted (t ∷ ts) =
    group_sorted t.amount t.recipient t.sender t.msg_index sorted (concat (map_list as_emitted ts))
      t.emitted
    ∙ (all_sorted (sorted ++ as_wanted t) ts
        ∙ ap clean (append_assoc sorted (as_wanted t) (concat (map_list as_wanted ts))))

-- A log of complete transfers, each with its amount, recipient and sender in any order, is
-- normalized to the same transfers with the attributes of each in the order amount, recipient,
-- sender.
pub normalize_transfers :
    (ts : List Transfer)
    → normalize_transfer_attrs (concat (map_list as_emitted ts))
      ≡ ok (concat (map_list as_wanted ts))
unfolding normalize_transfer_attrs
normalize_transfers ts = ap ok (
    ap (λ l. finish transfer_order (sort_loop transfer_order 3 fresh l)) (all_kept ts)
    ∙ ap (finish transfer_order) (all_sorted [] ts))
