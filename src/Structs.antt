-- ===== src/Structs.antt =====
-- schema/src/proto/structs.proto: the messages that the modelled code reads, with the fields that it
-- reads. A message that the code only carries about (`PeerMetadata`, `Observation`, ...) is `Message`,
-- its encoded bytes. A proto3 message field is an `Option`, and an enum field is its `i32`. `BytesData`
-- is its value: the code always builds it by `bytes_data`, with the default decoder and version.
use redgold.Prelude.{ℕ, ℕ_discrete, List, Option, I64, Bool}

abbrev pub Bytes : Type 0
Bytes = List ℕ

abbrev pub Message : Type 0
Message = List ℕ

pub record Hash : Type 0 where
  pub bytes : Option Bytes
  pub hash_format_type : ℕ
  pub hash_type : ℕ

pub record UtxoId : Type 0 where
  pub transaction_hash : Option Hash
  pub output_index : I64

pub record Address : Type 0 where
  pub address : Option Bytes
  pub address_type : ℕ
  pub currency : Option ℕ

pub record PublicKey : Type 0 where
  pub bytes : Option Bytes
  pub key_type : ℕ

pub record Signature : Type 0 where
  pub bytes : Option Bytes
  pub signature_type : ℕ

pub record Proof : Type 0 where
  pub signature : Option Signature
  pub public_key : Option PublicKey

pub record CurrencyAmount : Type 0 where
  pub amount : I64
  pub currency : Option ℕ

pub record StateSelector : Type 0 where
  pub query : Message

pub record StandardRequest : Type 0 where
  pub selector : Option StateSelector

pub record StandardData : Type 0 where
  pub amount : Option CurrencyAmount
  pub peer_data : Option Message
  pub node_metadata : Option Message
  pub height : Option I64
  pub observation : Option Message
  pub address : Option Address
  pub request : Option Bytes
  pub standard_request : Option StandardRequest
  pub liquidity_request : Option Message
  pub external_transaction_id : Option Message

pub record CodeExecutionContract : Type 0 where
  pub address : Option Address
  pub code : Option Bytes
  pub executor : Option ℕ

pub record OutputContract : Type 0 where
  pub standard_contract_type : Option ℕ
  pub code_execution_contract : Option CodeExecutionContract
  pub pay_update_descendents : Bool

pub record Output : Type 0 where
  pub address : Option Address
  pub product_id : Option Message
  pub counter_party_proofs : List Proof
  pub data_field : Option StandardData
  pub contract : Option OutputContract
  pub output_type : Option ℕ
  pub utxo_id : Option UtxoId

-- `AddressSelector` is inlined in its only user.
pub record FloatingUtxoId : Type 0 where
  pub address : Option Address
  pub requires_output_contract_predicate_match : Option Bool

pub record Input : Type 0 where
  pub utxo_id : Option UtxoId
  pub proof : List Proof
  pub product_id : Option Message
  pub output : Option Output
  pub floating_utxo_id : Option FloatingUtxoId
  pub input_type : Option ℕ

-- The length of the message text stands for the text: only it is read.
pub record TransactionData : Type 0 where
  pub message_len : Option ℕ
  pub standard_data : Option StandardData

pub record TransactionContract : Type 0 where
  pub confirmation_proofs : List Proof

pub record TransactionOptions : Type 0 where
  pub salt : Option I64
  pub network_type : Option ℕ
  pub txn_data : Option TransactionData
  pub contract : Option TransactionContract
  pub is_test : Option Bool

pub record StructMetadata : Type 0 where
  pub time : Option I64
  pub hash : Option Hash
  pub signable_hash : Option Hash
  pub signed_hash : Option Hash

pub record Transaction : Type 0 where
  pub inputs : List Input
  pub outputs : List Output
  pub struct_metadata : Option StructMetadata
  pub options : Option TransactionOptions

pub record UtxoEntry : Type 0 where
  pub utxo_id : Option UtxoId
  pub output : Option Output
  pub time : I64

pub record ContentionKey : Type 0 where
  pub utxo_id : Option UtxoId
  pub address : Option Address
  pub selector : Option StateSelector
  pub transaction_hash : Option Hash

unfoldable pub Hash-discrete : Discrete Hash
unfolding ℕ_discrete
Hash-discrete = hlevel ℕ_discrete

unfoldable pub UtxoId-discrete : Discrete UtxoId
unfolding ℕ_discrete Hash-discrete
UtxoId-discrete = hlevel (Hash-discrete, ℕ_discrete)

unfoldable pub Address-discrete : Discrete Address
unfolding ℕ_discrete
Address-discrete = hlevel ℕ_discrete

unfoldable pub PublicKey-discrete : Discrete PublicKey
unfolding ℕ_discrete
PublicKey-discrete = hlevel ℕ_discrete

unfoldable pub ContentionKey-discrete : Discrete ContentionKey
unfolding ℕ_discrete Hash-discrete UtxoId-discrete Address-discrete
ContentionKey-discrete = hlevel (UtxoId-discrete, Address-discrete, Hash-discrete, ℕ_discrete)

pub record ContractStateMarker : Type 0 where
  pub address : Option Address
  pub state : Option Bytes
  pub selector : Option StateSelector
  pub transaction_marker : Option Hash
  pub nonce : I64
  pub time : I64

pub Transaction-discrete : Discrete Transaction
Transaction-discrete = hlevel ℕ_discrete
