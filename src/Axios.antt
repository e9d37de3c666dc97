-- ===== src/Axios.antt =====
-- src/utils/axios/axios.service.ts: the options that a client of the HTTP library is made with. `C` is that
-- client.
use nestjs_stay_api.Common.{ℕ, Option, List, String}

pub record ClientOptions : Type 0 where
  pub base_url : String
  pub headers : Option (List (String × String))
  pub timeout : Option ℕ

-- `createClient`, with `axios.create`
unfoldable pub create_client :
    {C : Type 0} → (ClientOptions → C) → String → Option (List (String × String)) → Option ℕ → C
create_client create base_url headers timeout =
    create (record { base_url = base_url; headers = headers; timeout = timeout })
