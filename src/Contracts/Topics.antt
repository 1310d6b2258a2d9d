-- ===== src/Contracts/Topics.antt =====
-- The routing of contracts/cdc_routing.py and the typed contracts of contracts/cdc_tables.py, table
-- by table.
use azure_lakehouse_pipeline.Contracts.Bronze.{BronzeTableContract, bronze_tables}
use azure_lakehouse_pipeline.Contracts.Cdc.{
  get_typed_cdc_contract, cdc_topic_for_table, TypedCdcTableContract, cdc_domain_tables, integer,
  has_duplicate, topic,
}
use azure_lakehouse_pipeline.Result.{Result, ok, raise}
use azure_lakehouse_pipeline.Prelude.{String, List, ◌≡◌, All, [], some, true, false, refl}
use azure_lakehouse_pipeline.Dict.{contains, get, member, keys}
use azure_lakehouse_pipeline.Dict.Laws.{AllEntries-get, All-member}

-- The topic of every table that a domain lists is the topic of that domain.
pub topic_of_domain :
    (domain name : String) {tables : List String}
    → get domain cdc_domain_tables ≡ some tables
    → member name tables ≡ true
    → cdc_topic_for_table name ≡ ok (topic domain)
unfolding cdc_topic_for_table
topic_of_domain domain name {tables} h m =
    All-member (λ n. cdc_topic_for_table n ≡ ok (topic domain)) name tables
      (AllEntries-get (λ d ts. All (λ n. cdc_topic_for_table n ≡ ok (topic d)) ts) domain
        cdc_domain_tables
        (
          (refl, (refl, tt)),
          (
            (refl, (refl, (refl, (refl, tt)))),
            ((refl, tt), ((refl, (refl, (refl, tt))), ((refl, tt), ((refl, tt), tt)))),
          ),
        )
        h)
      m

typed_or : Result TypedCdcTableContract → TypedCdcTableContract
typed_or (ok c) = c
typed_or (raise e) = record { table_name = ""; primary_keys = []; payload_schema = [] }

-- The typed contract `c` of a source table with contract `b`: the keys are those of Bronze, each is
-- an integer column, and no column occurs twice.
pub record IsTyped (b : BronzeTableContract) (c : TypedCdcTableContract) : Type 0 where
  pub same_name : c.table_name ≡ b.table_name
  pub same_keys : c.primary_keys ≡ b.primary_keys
  pub integer_keys : All (λ k. get k c.payload_schema ≡ some integer) b.primary_keys
  pub distinct : has_duplicate (keys c.payload_schema) ≡ false
  pub excluded : All (λ k. contains k c.payload_schema ≡ false) b.excluded_columns

-- Every source table of Bronze has a typed contract, with its name and keys: each key is an integer
-- column of the payload, no column occurs twice, and no excluded column is in it.
pub IsTyped-contract_of_bronze :
    (name : String) {b : BronzeTableContract}
    → get name bronze_tables ≡ some b
    → (c : TypedCdcTableContract) × (get_typed_cdc_contract name ≡ ok c) × IsTyped b c
unfolding get_typed_cdc_contract typed_or contains
IsTyped-contract_of_bronze name {b} h =
    AllEntries-get
      (λ n b. (c : TypedCdcTableContract) × (get_typed_cdc_contract n ≡ ok c) × IsTyped b c) name
      bronze_tables
      (
        (
          typed_or (get_typed_cdc_contract "app_users"),
          refl,
          record {
            same_name = refl;
            same_keys = refl;
            integer_keys = (refl, tt);
            distinct = refl;
            excluded = (refl, tt);
          },
        ),
        (
          (
            typed_or (get_typed_cdc_contract "user_addresses"),
            refl,
            record {
              same_name = refl;
              same_keys = refl;
              integer_keys = (refl, tt);
              distinct = refl;
              excluded = tt;
            },
          ),
          (
            (
              typed_or (get_typed_cdc_contract "shops"),
              refl,
              record {
                same_name = refl;
                same_keys = refl;
                integer_keys = (refl, tt);
                distinct = refl;
                excluded = tt;
              },
            ),
            (
              (
                typed_or (get_typed_cdc_contract "categories"),
                refl,
                record {
                  same_name = refl;
                  same_keys = refl;
                  integer_keys = (refl, tt);
                  distinct = refl;
                  excluded = tt;
                },
              ),
              (
                (
                  typed_or (get_typed_cdc_contract "products"),
                  refl,
                  record {
                    same_name = refl;
                    same_keys = refl;
                    integer_keys = (refl, tt);
                    distinct = refl;
                    excluded = tt;
                  },
                ),
                (
                  (
                    typed_or (get_typed_cdc_contract "product_variants"),
                    refl,
                    record {
                      same_name = refl;
                      same_keys = refl;
                      integer_keys = (refl, tt);
                      distinct = refl;
                      excluded = tt;
                    },
                  ),
                  (
                    (
                      typed_or (get_typed_cdc_contract "vouchers"),
                      refl,
                      record {
                        same_name = refl;
                        same_keys = refl;
                        integer_keys = (refl, tt);
                        distinct = refl;
                        excluded = tt;
                      },
                    ),
                    (
                      (
                        typed_or (get_typed_cdc_contract "orders"),
                        refl,
                        record {
                          same_name = refl;
                          same_keys = refl;
                          integer_keys = (refl, tt);
                          distinct = refl;
                          excluded = tt;
                        },
                      ),
                      (
                        (
                          typed_or (get_typed_cdc_contract "order_items"),
                          refl,
                          record {
                            same_name = refl;
                            same_keys = refl;
                            integer_keys = (refl, tt);
                            distinct = refl;
                            excluded = tt;
                          },
                        ),
                        (
                          (
                            typed_or (get_typed_cdc_contract "order_vouchers"),
                            refl,
                            record {
                              same_name = refl;
                              same_keys = refl;
                              integer_keys = (refl, tt);
                              distinct = refl;
                              excluded = tt;
                            },
                          ),
                          (
                            (
                              typed_or (get_typed_cdc_contract "payments"),
                              refl,
                              record {
                                same_name = refl;
                                same_keys = refl;
                                integer_keys = (refl, tt);
                                distinct = refl;
                                excluded = tt;
                              },
                            ),
                            (
                              (
                                typed_or (get_typed_cdc_contract "shipments"),
                                refl,
                                record {
                                  same_name = refl;
                                  same_keys = refl;
                                  integer_keys = (refl, tt);
                                  distinct = refl;
                                  excluded = tt;
                                },
                              ),
                              tt,
                            ),
                          ),
                        ),
                      ),
                    ),
                  ),
                ),
              ),
            ),
          ),
        ),
      )
      h
