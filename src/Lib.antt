-- ===== src/Lib.antt =====
-- A verification library for seo-optimizer: a launch-readiness audit for web sites. A crawl's probes make
-- observations; the grader turns them into a verdict on each check of a corpus; core decides from the
-- verdicts, from people's attestations and from a review log whether a launch may go; audits run as jobs
-- of a queue that several processes may share through a store.
--
-- Core (packages/core/src). `Core.Check` has the types of check.ts and state.ts, less a check's prose.
-- `Core.Readiness` is readiness.ts: a loop over the checks is a fold on a record of its variables, here
-- `Tally`. `Core.ReviewLog` and `Core.Review` are review.ts, `Core.Release` and `Core.Cutover` cutover.ts.
-- An absent field is `none`; a map is an association list in insertion order. `date_parse` stands for
-- `Date.parse`, `none` for NaN, and `percent` for the rounded percentage of computeProgress.
--
-- Grader (packages/grader/src). `Grader.Types`, `Grader.Scope` and `Grader.Grade` are types.ts, scope.ts
-- and grade.ts. `grade_check` is gradeCheck, cut into pieces at its early returns. Summaries are the source's
-- texts. The registry's detector ids and the time of grading are inputs.
--
-- Queue (packages/queue/src). `Queue.State` is the state of JobQueue: an entry is an object that several
-- collections share, so a number names it and a heap holds it; cells from `next` on are not in use.
-- `Queue.Schedule` is the pump (#take, #start, #run up to the handler, #scheduleWake, #scheduleHeartbeat),
-- `Queue.Handlers` what runs when the store, a handler or a retry policy comes back, `Queue.Api` the
-- methods and the timers' callbacks. `Queue.Step` is the step relation: each piece of code between two
-- `await`s is one step, answers come in any order, and the store's answers about one job in the order of
-- its calls. Callbacks that hang on one promise are one step; a handler or a listener that calls the
-- queue does so in a step of its own. Times are milliseconds; the queue's two clocks, `now()` and
-- `Date.now()`, are the two fields of `Clock`. What is thrown is kept by its message, save for the queue's
-- own two errors. `onEvent` is the list of the events; `onStoreError` only reports and is left out.
-- The loop of #pump has the length of the line as fuel: a round takes one job out of it, so the loop has
-- ended on its own by then. `Queue.MemoryStore` is MemoryJobStore of store.ts, on the rows that its handles
-- share.
--
-- Job store (packages/job-store/src). `JobStore` is postgres.ts, on the rows of one queue's name. A statement
-- or a transaction is one function, and those of several workers come one after the other. `JobStore.Shown`
-- says when the in-memory store shows the same as a table; `Writes`, `Renewals` and `Loads` compare the two
-- call by call, `Refines` run by run. The database's sort is a parameter, and `Ordering` what is documented of
-- it.
--
-- Crawler (packages/crawler/src). `Crawler.Robots` is robots.ts, whose parser is `Crawler.Robots.Parse`. The
-- expression that `matches` builds is run directly, character by character; `length` counts UTF-16 units
-- as the source's does. `Crawler.Url` is url.ts: a `UrlStandard` stands for the platform's URL parser, and
-- `IsStandard` for what the URL standard says of it. `Crawler.Sitemap` is sitemap.ts: the handlers of the
-- XML parser's events, which are its input, and `Crawler.Sitemap.Printing` a sitemap as it is written.
-- `Crawler.Hosts` has hostVariants of crawl.ts and registrableDomain of rdap.ts.
-- The rest is crawl.ts. `Crawler.Frontier` is the two lanes of URLs that wait, `Crawler.Loading` loadRobots and
-- loadSitemaps, `Crawler.Crawl` the state of a crawl, `Crawler.Crawl.Walk` the loop over the lanes,
-- `Crawler.Crawl.Aside` the requests outside it, `Crawler.Crawl.Whole` the whole function. A piece of the
-- crawl goes on or is cancelled (`Run`), and writes what it does to others into a trace of acts. `Web` is all
-- that answers it: requests, renders and the caller's signal are functions of the trace so far, so that a
-- server may answer otherwise each time and the signal may come at any `await`. `resolve` is `new URL` of a path
-- on the crawl's first address, which may throw, as the crawl then does. The walk has maxPages as fuel: a round that goes on adds a page. loadSitemaps has 50, its own limit, since a round asks for one
-- document that was not asked for yet; the rounds up to such a one are `draw`, whose fuel, `enough`, counts
-- a turn of all lanes for each URL that waits. A lane whose turn is over goes to the end of the list, where
-- the source counts turns.
--
-- Prelude has what the parts share: tests on the native numbers, lists, maps, strings and integers.
-- The witnesses and tests stand in `Core.Examples`, `Grader.Examples`, `Queue.Examples`,
-- `JobStore.Examples`, and in `Crawler.Examples` and its children.
--
-- Not modelled: the probes, whose observations the grader is given; fetching with its redirects, extraction
-- and rendering, which answer a crawl; the database's other tables and the scheduler around the
-- queue; release files, site inputs, the applications. Of a crawl: its timestamps, the limits of bytes and
-- time that it passes on, and what the TLS handshake and the RDAP lookup answer. Floating-point arithmetic is
-- a parameter where the program uses it.
pub mod Prelude
pub mod Core
pub mod Grader
pub mod Queue
pub mod JobStore
pub mod Crawler
