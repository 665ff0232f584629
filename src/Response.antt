-- ===== src/Response.antt =====
-- http/response/__init__.py: a response, with the attributes that the modelled components read.
use scrapy.Prelude.{ℕ, String}
use scrapy.Dict.{Dict}

pub record Response : Type 0 where
  pub url : String
  pub status : ℕ
  pub headers : Dict String String
  -- len(response.body)
  pub body_size : ℕ

-- What a middleware hands on instead of a response: `Response | Request`
pub data Outcome (R : Type 0) : Type 0 where
  response : Response → Outcome R
  request : R → Outcome R
