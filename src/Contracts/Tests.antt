-- ===== src/Contracts/Tests.antt =====
-- The contracts of two tables.
use azure_lakehouse_pipeline.Dict.{get}
use azure_lakehouse_pipeline.Contracts.Cdc.{
  TypedCdcTableContract, cdc_topic_for_table, get_typed_cdc_contract, topic,
}
use azure_lakehouse_pipeline.Prelude.{◌≡◌, ◌∷◌, refl, []}
use azure_lakehouse_pipeline.Result.{ok}
use azure_lakehouse_pipeline.Contracts.Topics.{IsTyped, topic_of_domain, IsTyped-contract_of_bronze}

topic_of_domain_example : cdc_topic_for_table "shops" ≡ ok (topic "catalog")
unfolding get
topic_of_domain_example = topic_of_domain "catalog" "shops" refl refl

IsTyped-contract_of_bronze_example :
    (c : TypedCdcTableContract) × (get_typed_cdc_contract "app_users" ≡ ok c)
    × IsTyped
        (record {
          table_name = "app_users";
          primary_keys = "user_id" ∷ [];
          excluded_columns = "password_hash" ∷ [];
        })
        c
unfolding get
IsTyped-contract_of_bronze_example = IsTyped-contract_of_bronze "app_users" refl
