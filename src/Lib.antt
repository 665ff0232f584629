-- ===== src/Lib.antt =====
-- Scrapy: the parts of the crawler that decide which request goes out next and when, and what
-- happens to it and to its response on the way.
--
-- A crawl moves requests in a circle. The engine (`Engine`, core/engine.py) gives a request to
-- the scheduler (`Scheduler`, core/scheduler.py), which drops duplicates (`DupeFilter`,
-- dupefilters.py) and stores the others in priority queues, in memory and on disk
-- (`PriorityQueue`, and `AwareQueue`, which has one for each download slot; pqueues.py). When
-- the engine takes a request out again, the downloader (`Downloader`,
-- core/downloader/__init__.py) queues it in the slot of its site, which is to limit and to space
-- the transfers. On the way back the retry and redirect middlewares (`Retry`, `Redirect`,
-- downloadermiddlewares/retry.py and redirect.py) may answer with a new request (`Middleware`,
-- core/downloader/middleware.py, chains them); else the scraper (`Scraper`, core/scraper.py)
-- passes the response to the spider, through the spider middlewares (`SpiderMiddleware`,
-- core/spidermw.py, chains them). All of these count in the stats (`Stats`, statscollectors.py).
-- The spider middlewares for the depth of a request and for bad statuses are in `Depth` and
-- `HttpError` (spidermiddlewares/depth.py and httperror.py), and `CloseSpider`
-- (extensions/closespider.py) ends a crawl at its limits. `Referer`
-- (spidermiddlewares/referer.py) sets the Referer header, `Media` (pipelines/media.py) downloads
-- the files of items, `HttpCache` (extensions/httpcache.py, and
-- downloadermiddlewares/httpcache.py in HttpCache.Serving) serves cached responses, `Http2`
-- (core/_http2/stream.py; Http2.Protocol: protocol.py; Http2.RequestHeaders) is the client side
-- of an HTTP/2 connection, `Http11` (core/downloader/handlers/http11.py) reads the responses of
-- HTTP/1.1, `Robots` (downloadermiddlewares/robotstxt.py) holds requests to the robots.txt of
-- their sites, `Offsite` (downloadermiddlewares/offsite.py) to the domains of their spider,
-- `AutoThrottle` (extensions/throttle.py) adapts the delays of the downloader, and `Settings`
-- (settings/__init__.py) holds what configures all parts. `Crawlers` (crawler.py) keeps the
-- crawls of a process. `Headers` (http/headers.py) holds the headers of a message, and
-- `LocalCache` (utils/datatypes.py) is a dict with a limit. All paths are below scrapy/.
--
-- The files.
--   Prelude, Dict: shared names; Python's dict with its laws.
--   Request, Response: http/request/__init__.py and http/response/__init__.py, as records with
--     the attributes and meta keys that the other files read. Requests have the state of the
--     objects, and a method that mutates an object returns it anew; where identity matters (the
--     sets of the downloader and the scraper) a request is a number instead.
--   QueueClass, PqueueClass: the interfaces of the downstream queue and of the priority queue
--     class. The queues of queuelib are third-party code, so the first is a parameter, with the
--     laws that the source relies on. PriorityQueue.Scheduling makes a PqueueClass of the
--     ScrapyPriorityQueue, and AwareQueue.Conserve one of the DownloaderAwarePriorityQueue.
--   SchedulerClass: BaseScheduler, as the engine uses it. Scheduler.Class fills it with the
--     Scheduler.
--   X for a component X: its state and its operations, named as in the source. X/Tests: runs.
--
-- Conventions. A method that may raise returns an Option, with `none` for the exception. Numbers
-- are natural numbers, priorities are integers, times are whole numbers of a unit. A coroutine
-- is cut where it waits: what comes before and after is a step of its own, and a run is a list
-- of events in any order. The loop of `pop` in the priority queue has fuel 2: a round that does
-- not return sets the current priority to one that has a queue, so the next round returns. The
-- loop of the engine that starts requests has one more unit of fuel than requests are pending;
-- each round takes one of them. The loop that sends the body of a request over HTTP/2 has as
-- much fuel as bytes to send, and the one that sends pending requests as many rounds as requests
-- are pending.
--
-- Parameters stand for what is not in the repository: the fingerprint's hash, the functions on
-- URLs of urllib and w3lib, the texts of HTTP statuses, the clock and the random numbers, and what
-- the parsers of numbers, dates, JSON and import paths make of a text. The HTTP/2 connection of
-- hyper-h2 is an interface, Http2.Connection.
-- Of Python's `re`, Offsite.Regex has what is documented of the parts of one expression.
--
-- Not modelled: the other download handlers, the other middlewares and extensions, spiders,
-- selectors, feed exports, the storages of the HTTP cache, commands, signals and log messages.
mod Prelude
pub mod Dict
pub mod Referer
pub mod Request
pub mod Response
pub mod SpiderMiddleware
pub mod Stats
pub mod DupeFilter
pub mod QueueClass
pub mod SchedulerClass
pub mod Engine
pub mod Scheduler
pub mod Retry
pub mod Robots
pub mod Depth
pub mod CloseSpider
pub mod LocalCache
pub mod Media
pub mod Middleware
pub mod HttpCache
pub mod Headers
pub mod Offsite
pub mod Crawlers
pub mod Http11
pub mod Http2
pub mod HttpError
pub mod Redirect
pub mod PqueueClass
pub mod Downloader
pub mod Scraper
pub mod Settings
pub mod PriorityQueue
pub mod AutoThrottle
pub mod AwareQueue
