-- ===== src/Worker/Broker.antt =====
-- worker/wakeup_broker.go: lossy wakeups. A channel is its capacity and its buffer, and belongs to one
-- subscription; a queue's channels are in the order of their subscriptions.
use domainry_foundation.Prelude.{
  ℕ, zero, suc, ℤ, pos, negsuc, Bool, ◌||◌, String, str_eq, List, [], ◌∷◌, ◌++◌, length, Map,
  lookup_or, insert, ltb, trim_space, if◌then◌else◌,
}

pub record DurableTaskLocator : Type 0 where
  pub queue_kind : String
  pub workspace_id : String
  pub task_id : String

pub record Channel : Type 0 where
  pub capacity : ℕ
  pub buffer : List DurableTaskLocator

abbrev pub WakeupBroker : Type 0
WakeupBroker = Map (List Channel)

abbrev pub channel_capacity : ℤ → ℕ
channel_capacity (pos zero) = 1
channel_capacity (pos (suc n)) = suc n
channel_capacity (negsuc n) = 1

-- `Subscribe` on a broker; a queue without a name gets a channel that nothing is sent to.
unfoldable pub subscribe : String → ℤ → WakeupBroker → WakeupBroker
subscribe queue_kind capacity b =
    let kind = trim_space queue_kind in
    if str_eq kind ""
    then b
    else insert kind
        (lookup_or [] kind b ++ record { capacity = channel_capacity capacity; buffer = [] } ∷ []) b

-- The `select` of `Publish`: a full channel drops the wakeup.
unfoldable pub offer : DurableTaskLocator → Channel → Channel
offer locator c =
    if ltb (length c.buffer) c.capacity then record c { buffer = c.buffer ++ locator ∷ [] } else c

abbrev pub offer_all : DurableTaskLocator → List Channel → List Channel
offer_all locator [] = []
offer_all locator (c ∷ cs) = offer locator c ∷ offer_all locator cs

abbrev pub trimmed : DurableTaskLocator → DurableTaskLocator
trimmed locator = record {
  queue_kind = trim_space locator.queue_kind;
  workspace_id = trim_space locator.workspace_id;
  task_id = trim_space locator.task_id;
}

abbrev pub is_incomplete : DurableTaskLocator → Bool
is_incomplete l = str_eq l.queue_kind "" || (str_eq l.workspace_id "" || str_eq l.task_id "")

unfoldable pub publish : DurableTaskLocator → WakeupBroker → WakeupBroker
publish locator b =
    let l = trimmed locator in
    if is_incomplete l then b else insert l.queue_kind (offer_all l (lookup_or [] l.queue_kind b)) b
