-- ===== src/Tests/World.antt =====
-- A small world: two users with a wallet each, and a webhook target.
use go_hermes.Base.{
  true, false, none, some, List, [], ◌∷◌, refl, map, arith, str_eq, if◌then◌else◌, ltb,
}
use go_hermes.Base.Int.{ℤ, pos}
use go_hermes.Entity.{Wallet, WalletStatus}
use go_hermes.UuidLib.{UuidLib}
use go_hermes.Types.{OperationResult, TopUpRequest, TransferRequest}
use go_hermes.Webhook.Create.{WebhookNotifier, service}
use go_hermes.Store.View.{View}
use go_hermes.TransactionUsecase.Common.{Draws, World}
use go_hermes.AppError.{Error, Result, ok, err, conflict}
use go_hermes.Json.{null}
use go_hermes.Store.Validity.{IsValid}

-- Three texts are UUIDs here.
abbrev pub uuid : UuidLib
uuid = record {
  parse = λ s.
      if str_eq s "u-1"
      then some 1
      else if str_eq s "u-2"
      then some 2
      else if str_eq s "w-20"
      then some 20
      else none;
  text = λ i. "id";
  text_lt = ltb;
}

abbrev pub alice : Wallet
alice = record {
  id = 10;
  user_id = 1;
  balance = pos 100;
  status = WalletStatus.active;
  created_at = 5;
  updated_at = 5;
}

abbrev pub bob : Wallet
bob = record {
  id = 20;
  user_id = 2;
  balance = pos 7;
  status = WalletStatus.active;
  created_at = 6;
  updated_at = 6;
}

abbrev pub start : View
start = record {
  users = [];
  wallets = alice ∷ bob ∷ [];
  transactions = [];
  ledger = [];
  idempotency = [];
  audits = [];
  deliveries = [];
}

abbrev pub world : World View
world = record { db = start; queue = [] }

abbrev pub hooks : WebhookNotifier
hooks = service (record {
  enabled = true;
  target_url = "https://hook";
  secret = "s";
  max_retry = pos 3;
  retry_interval_seconds = pos 30;
  worker_batch_size = pos 20;
})

abbrev pub draws : Draws
draws = record {
  record_id = 900;
  transaction_id = 901;
  reference = "a";
  entry_id = 902;
  second_entry_id = 903;
  audit_id = 904;
  entry_at = 50;
  second_entry_at = 51;
  audit_at = 52;
  delivery = record { delivery_id = 905; occurred_at = 53 };
}

abbrev pub later_draws : Draws
later_draws = record {
  record_id = 910;
  transaction_id = 911;
  reference = "b";
  entry_id = 912;
  second_entry_id = 913;
  audit_id = 914;
  entry_at = 60;
  second_entry_at = 61;
  audit_at = 62;
  delivery = record { delivery_id = 915; occurred_at = 63 };
}

abbrev pub top_up_request : TopUpRequest
top_up_request = record {
  user_id = "u-1";
  amount = pos 30;
  description = none;
  idempotency_key = "k";
  request_hash = "h";
}

abbrev pub transfer_request : TransferRequest
transfer_request = record {
  user_id = "u-1";
  recipient_wallet_id = "w-20";
  amount = pos 40;
  description = none;
  idempotency_key = "k";
  request_hash = "h";
}

-- How a run ended, where it did.
abbrev pub ok_of : Result OperationResult → OperationResult
ok_of (ok x) = x
ok_of (err e) = record { status_code = 0; body = null; replay = false }

abbrev pub err_of : Result OperationResult → Error
err_of (ok x) = conflict ""
err_of (err e) = e

abbrev pub balances : View → List ℤ
balances v = map (λ w. w.balance) v.wallets

pub start-IsValid : IsValid start
start-IsValid = record { unique = (refl, (refl, tt)); sound = omega arith }
